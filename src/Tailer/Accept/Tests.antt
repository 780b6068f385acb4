-- ===== src/Tailer/Accept/Tests.antt =====
-- The tailer's theorems on whole polls and on pending records, at concrete inputs.
use log_collector.Base.{
  ◌++◌, some-injective, none-ne-some, ◌≡◌, refl, true, false, none, some, List, [], ◌∷◌, leb, ◌==◌,
  text_eq, Bool-cases, inl, inr, subst, arith,
}
use log_collector.Utf8.{runes}
use log_collector.Base.Int.{pos}
use log_collector.Base.Dict.{lookup, insert}
use log_collector.Base.Text.{Text, before}
use log_collector.Model.{FileTarget, Record, Regexp, zero_time}
use log_collector.Tailer.Records.{prepared_record, record_attributes}
use log_collector.Tailer.Severity.{
  parse_severity, find_severity, capture_first, words, find_delimited, is_delimiter,
}
use log_collector.Tailer.Accept.{Tailer, Limits, Outside, Pending, done, parse_line, accept}
use log_collector.Tailer.Accept.Conservation.{accept_lines, told, joined, accept_lines-told}
use log_collector.Tailer.Accept.Bounds.{IsBounded, AllBounded, accept-AllBounded}

-- A line that begins with "x" begins a record.
abbrev pub begins_with_x : Text → Regexp
begins_with_x p = record {
  match_string = λ s. elim s [ [] ↦ false | c ∷ cs ↦ leb b'x' c ];
  find_submatch = λ s. [];
  num_subexp = 0;
}

abbrev pub outside : Outside
outside = record {
  takes = λ rs r. true;
  compile = λ p. some (begins_with_x p);
  parse_time = λ s. none;
}

abbrev pub limits : Limits
limits = record { max_read_bytes = 100; max_log_size = 30; max_multiline_size = 10; max_lines = 2 }

abbrev pub stacked : FileTarget
stacked = record {
  path = b'p' ∷ [];
  reported_path = [];
  source_type = [];
  rule = [];
  start_at = [];
  format = [];
  multiline = record { start_pattern = b'x' ∷ []; flush_after = pos 0 };
  attributes = [];
  extractors = [];
  trace_id_extractor = none;
  trace_id_completion = false;
  drop_levels = [];
  resource_attributes = none;
  resource_key = [];
}

abbrev held : Pending
held = record {
  body = b'x' ∷ b'1' ∷ [];
  size = 2;
  lines = 1;
  target = stacked;
  timestamp = zero_time;
  attributes = none;
  updated = pos 1;
  start = some (begins_with_x (b'x' ∷ []));
}

abbrev holding : Tailer
holding = record { pending = (b'k' ∷ [], held) ∷ []; emitted = [] }

held-IsBounded : IsBounded limits held
unfolding runes
held-IsBounded = (refl, omega arith)

holding-AllBounded : AllBounded limits holding
unfolding lookup
holding-AllBounded k p e = elim (Bool-cases ((b'k' ∷ []) == k)) [
  | inl same ↦ subst (IsBounded limits) (some-injective _ _ (rw same at e)) held-IsBounded
  | inr other ↦ absurd (none-ne-some _ (rw other at e))
]

accept-AllBounded_example :
    AllBounded limits
      (accept outside limits (pos 3) (b'k' ∷ []) stacked (b'x' ∷ b'2' ∷ []) holding).1
accept-AllBounded_example =
    accept-AllBounded outside limits (pos 3) (b'k' ∷ []) stacked (b'x' ∷ b'2' ∷ []) holding
      holding-AllBounded

abbrev pub idle : Tailer
idle = record { pending = []; emitted = [] }

abbrev second_line : Text
second_line = b'y' ∷ []

abbrev third_line : Text
third_line = b'a' ∷ []

lines_taken :
    (accept_lines outside limits
      (pos 3)
      (b'k' ∷ [])
      stacked
      ((b'x' ∷ []) ∷ second_line ∷ third_line ∷ [])
      idle).0
    ≡ done
unfolding accept text_eq lookup insert prepared_record record_attributes parse_severity
    find_severity capture_first words before find_delimited is_delimiter
lines_taken = refl

accept_lines-told_example :
    (rs : List Record) × (q : Pending) × ((accept_lines outside limits
        (pos 3)
        (b'k' ∷ [])
        stacked
        ((b'x' ∷ []) ∷ second_line ∷ third_line ∷ [])
        idle).1.emitted
      ≡ [] ++ rs)
    × (lookup
          (b'k' ∷ [])
          (accept_lines outside limits
            (pos 3)
            (b'k' ∷ [])
            stacked
            ((b'x' ∷ []) ∷ second_line ∷ third_line ∷ [])
            idle).1.pending
        ≡ some q)
    × (told rs q.body ≡ joined (b'x' ∷ []) (second_line ∷ third_line ∷ []))
unfolding parse_line text_eq lookup
accept_lines-told_example =
    accept_lines-told outside limits (pos 3) (b'k' ∷ []) stacked (b'x' ∷ [])
      (second_line ∷ third_line ∷ []) idle (λ e. cc) refl refl
      ((λ e. cc), ((λ e. cc), ((λ e. cc), tt))) lines_taken
