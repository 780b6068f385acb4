-- ===== src/Tailer/Tests.antt =====
-- The tailer's theorems at concrete inputs.
use log_collector.Base.{
  ℕ, suc, zero, ◌+◌, ◌-◌, ◌<◌, ◌≡◌, ◌≢◌, ◌↔◌, ◌⊎◌, inl, inr, refl, Bool, true, false, Option, none,
  some, List, [], ◌∷◌, ◌++◌, All, Elem, length, take, replicate, arith, leb,
}
use log_collector.Base.Int.{pos}
use log_collector.Base.Text.{Text, bytes, before}
use log_collector.Model.{FileTarget, Record, Time, zero_time}
use log_collector.Utf8.{runes, encode}
use log_collector.Utf8.Laws.{runes-encode}
use log_collector.Tailer.Lines.{truncate_runes, eof, unreadable, newline, read_bounded_line}
use log_collector.Tailer.Lines.Laws.{trim_return, runes-truncate_runes}
use log_collector.Tailer.Lines.Reading.{read_bounded_line-line, read_bounded_line-tail}
use log_collector.Tailer.Lines.Complete.{complete_lines}
use log_collector.Tailer.Severity.{words, classify, parse_severity}
use log_collector.Tailer.Severity.Laws.{HasLevel, IsLevel, parse_severity_lem}
use log_collector.Tailer.TraceId.{
  parse_trace_id, encode_hex, has_nonzero, parse_trace_id-IsValid, parse_trace_id-encode_hex,
}
use log_collector.Tailer.Cri.{Cri, parse_cri, IsCriLine, parse_cri_iff}
use log_collector.Tailer.Records.{prepared_record, prepared_record-total}
use log_collector.Tailer.Accept.{Tailer, Limits, Outside}
use log_collector.Tailer.Read.{read_loop}
use log_collector.Tailer.Read.Laws.{feed, read_loop-feed}

-- "é" and a byte that is not valid.
abbrev mixed : Text
mixed = 0xc3 ∷ 0xa9 ∷ 0xff ∷ b'a' ∷ []

runes-encode_example : runes (encode (0xe9 ∷ 0x1f600 ∷ [])) ≡ 0xe9 ∷ 0x1f600 ∷ []
runes-encode_example = runes-encode (0xe9 ∷ 0x1f600 ∷ []) (refl, (refl, tt))

runes-truncate_runes_example : runes (truncate_runes mixed 2) ≡ take 2 (runes mixed)
runes-truncate_runes_example = runes-truncate_runes mixed 2

mixed_test : runes (truncate_runes mixed 2) ≡ 0xe9 ∷ 0xfffd ∷ []
unfolding truncate_runes runes encode
mixed_test = refl

abbrev hi : Text
hi = b'h' ∷ b'i' ∷ 13 ∷ []

-- A line with its carriage return, read through a buffer of two bytes.
read_bounded_line-line_example :
    read_bounded_line 2 (record { rest = hi ++ newline ∷ b'x' ∷ []; failure = eof }) 5
    ≡ some (record {
      text = truncate_runes (trim_return hi) 5;
      consumed = 4;
      complete = true;
      error = none;
      rest = b'x' ∷ [];
    })
read_bounded_line-line_example =
    read_bounded_line-line 2 5 eof hi (b'x' ∷ []) (omega arith) (omega arith)
      ((λ e. omega (arith, e)), ((λ e. omega (arith, e)), ((λ e. omega (arith, e)), tt)))

read_bounded_line-tail_example :
    read_bounded_line 2 (record { rest = hi; failure = unreadable }) 5
    ≡ some (record {
      text = truncate_runes hi 5;
      consumed = 3;
      complete = false;
      error = some unreadable;
      rest = [];
    })
read_bounded_line-tail_example =
    read_bounded_line-tail 2 5 unreadable hi (omega arith) (omega arith)
      ((λ e. omega (arith, e)), ((λ e. omega (arith, e)), ((λ e. omega (arith, e)), tt)))

abbrev warning : Text
warning = b'[' ∷ b'W' ∷ b'a' ∷ b'r' ∷ b'n' ∷ b']' ∷ b'x' ∷ []

parse_severity_lem_example :
    ((parse_severity warning ≡ ([], 0))
      × ((w : Text) → Elem w words → ¬ HasLevel w (before newline warning)))
    ⊎ ((w : Text) × Elem w words
        × HasLevel w (before newline warning)
        × (parse_severity warning ≡ classify w)
        × IsLevel (classify w))
parse_severity_lem_example = parse_severity_lem warning

parse_trace_id-IsValid_example :
    (parse_trace_id warning true ≡ [])
    ⊎ ((length (parse_trace_id warning true) ≡ 16)
        × (has_nonzero (parse_trace_id warning true) ≡ true))
parse_trace_id-IsValid_example = parse_trace_id-IsValid warning

abbrev half_id : Text
half_id = 1 ∷ 2 ∷ 3 ∷ 4 ∷ 5 ∷ 6 ∷ 7 ∷ 255 ∷ []

parse_trace_id-encode_hex_example :
    parse_trace_id (encode_hex half_id) true ≡ replicate (16 - length half_id) 0 ++ half_id
unfolding log_collector.Base.ℕ_discrete
parse_trace_id-encode_hex_example = parse_trace_id-encode_hex half_id (omega arith) refl (inl refl)

abbrev always_five : Text → Option Time
always_five s = some (pos 5)

abbrev cri_line : Text
cri_line = bytes "t stdout F a b"

abbrev cri_result : Cri
cri_result = record {
  body = bytes "a b";
  timestamp = pos 5;
  stream = bytes "stdout";
  flag = bytes "F";
}

parse_cri_iff_example :
    (parse_cri always_five cri_line ≡ some cri_result)
    ↔ ((stamp : Text) × IsCriLine always_five cri_line stamp cri_result)
parse_cri_iff_example = parse_cri_iff always_five cri_line cri_result

abbrev plain_target : FileTarget
plain_target = record {
  path = bytes "/a";
  reported_path = [];
  source_type = bytes "file";
  rule = bytes "r";
  start_at = bytes "end";
  format = [];
  multiline = record { start_pattern = []; flush_after = pos 0 };
  attributes = [];
  extractors = [];
  trace_id_extractor = none;
  trace_id_completion = false;
  drop_levels = bytes "WARN" ∷ [];
  resource_attributes = none;
  resource_key = [];
}

prepared_record-total_example :
    (r : Record) × (prepared_record plain_target warning zero_time none ≡ some r)
    × (r.body ≡ warning)
    × ((r.severity_text, r.severity_number) ≡ parse_severity warning)
    × ((r.dropped ≡ true) ↔ Elem r.severity_text plain_target.drop_levels)
prepared_record-total_example = prepared_record-total plain_target warning zero_time none

abbrev outside : Outside
outside = record { takes = λ rs r. leb (length rs) 0; compile = λ s. none; parse_time = λ s. none }

abbrev limits : Limits
limits = record { max_read_bytes = 100; max_log_size = 3; max_multiline_size = 10; max_lines = 2 }

-- Two lines of which the second is not taken, and an incomplete third.
abbrev content : Text
content = b'a' ∷ 10 ∷ b'b' ∷ 10 ∷ b'c' ∷ []

abbrev idle : Tailer
idle = record { pending = []; emitted = [] }

read_loop-feed_example :
    read_loop outside limits
      (pos 1)
      (bytes "k")
      plain_target
      6
      0
      0
      (record { rest = content; failure = eof })
      idle
    ≡ some (feed outside limits (pos 1) (bytes "k") plain_target 0 0 (complete_lines content) idle)
read_loop-feed_example =
    read_loop-feed outside limits (pos 1) (bytes "k") plain_target 6 0 0 eof content idle
      (omega arith) (omega arith)
