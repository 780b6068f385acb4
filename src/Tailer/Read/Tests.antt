-- ===== src/Tailer/Read/Tests.antt =====
-- A file that grows between two rounds, at a concrete input.
use log_collector.Base.{ℕ_discrete, ◌≤◌, ◌≡◌, refl, none, some, [], ◌∷◌, ◌++◌, text_eq, arith}
use log_collector.Base.Dict.{lookup, insert}
use log_collector.Base.Int.{pos, ◌-ℤ◌, wrap64}
use log_collector.Base.Text.{Text, trim_suffix}
use log_collector.Model.{zero_time}
use log_collector.Tailer.Lines.{
  eof, read_bounded_line, line_loop, read_slice, finish, truncate_runes, keep,
}
use log_collector.Utf8.{encode, runes}
use log_collector.Tailer.Accept.{accept}
use log_collector.Tailer.Accept.Tests.{begins_with_x, outside, limits, stacked, idle}
use log_collector.Tailer.Read.{Progress, finished, read_loop}
use log_collector.Tailer.Read.Resuming.{read_loop_resumes}

-- One line, and the beginning of another.
abbrev begun : Text
begun = b'x' ∷ b'2' ∷ 10 ∷ b'y' ∷ []

abbrev after_first : Progress
after_first = record {
  outcome = finished;
  committed = 10;
  tailer = record {
    pending =
        (
          b'k' ∷ [],
          record {
            body = b'x' ∷ b'2' ∷ [];
            size = 2;
            lines = 1;
            target = stacked;
            timestamp = zero_time;
            attributes = none;
            updated = pos 3;
            start = some (begins_with_x (b'x' ∷ []));
          },
        )
        ∷ [];
    emitted = [];
  };
}

first_round :
    read_loop outside limits
      (pos 3)
      (b'k' ∷ [])
      stacked
      5
      7
      0
      (record { rest = begun; failure = eof })
      idle
    ≡ some after_first
unfolding read_loop read_bounded_line line_loop read_slice ℕ_discrete accept text_eq lookup finish
    truncate_runes encode runes trim_suffix keep insert ◌-ℤ◌ wrap64
first_round = refl

read_loop_resumes_example :
    (10 ≤ 11)
    × (read_loop outside limits
          (pos 3)
          (b'k' ∷ [])
          stacked
          6
          7
          0
          (record { rest = begun ++ 10 ∷ []; failure = eof })
          idle
        ≡ read_loop outside limits
            (pos 3)
            (b'k' ∷ [])
            stacked
            3
            10
            0
            (record { rest = b'y' ∷ 10 ∷ []; failure = eof })
            after_first.tailer)
read_loop_resumes_example =
    read_loop_resumes outside limits (pos 3) (b'k' ∷ []) stacked 7 eof eof begun (10 ∷ []) idle
      after_first (omega arith) (omega arith) first_round refl
