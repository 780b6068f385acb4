-- ===== src/Model.antt =====
-- internal/model/model.go, with what the program takes from Go's packages os, regexp and time: a
-- file's status, a compiled regular expression as its behaviour, and an instant as the nanoseconds
-- since the zero `time.Time`.
use log_collector.Base.{ℕ, Bool, Option, List}
use log_collector.Base.Int.{ℤ, pos}
use log_collector.Base.Dict.{Dict}
use log_collector.Base.Text.{Text}

abbrev pub Time : Type 0
Time = ℤ

-- `time.Time{}`
abbrev pub zero_time : Time
zero_time = pos 0

-- `num_subexp` counts capture groups; a failed match has no submatches.
pub record Regexp : Type 0 where
  pub match_string : Text → Bool
  pub find_submatch : Text → List Text
  pub num_subexp : ℕ

pub record AttributeExtractor : Type 0 where
  pub key : Text
  pub pattern : Regexp

pub record Multiline : Type 0 where
  pub start_pattern : Text
  pub flush_after : ℤ

-- `none` stands for a nil map or pointer.
pub record FileTarget : Type 0 where
  pub path : Text
  pub reported_path : Text
  pub source_type : Text
  pub rule : Text
  pub start_at : Text
  pub format : Text
  pub multiline : Multiline
  pub attributes : Dict Text
  pub extractors : List AttributeExtractor
  pub trace_id_extractor : Option Regexp
  pub trace_id_completion : Bool
  pub drop_levels : List Text
  pub resource_attributes : Option (Dict Text)
  pub resource_key : Text

pub record Record : Type 0 where
  pub body : Text
  pub timestamp : Time
  pub observed_timestamp : Time
  pub severity_text : Text
  pub severity_number : ℕ
  pub dropped : Bool
  pub trace_id : Text
  pub attributes : Option (Dict Text)
  pub resource_attributes : Dict Text
  pub resource_key : Text

-- `os.FileInfo`; `sys` is the device and inode, where the system has them.
pub record FileInfo : Type 0 where
  pub sys : Option (ℕ × ℕ)
  pub size : ℕ
  pub regular : Bool
