-- ===== src/Config.antt =====
-- internal/config/config.go: the structs of the configuration. Durations are in nanoseconds; a nil map
-- or slice is the empty one; a `float64` is what `Validate` asks of it.
pub mod Validate
pub mod Valid
pub mod Defaults
pub mod Tests
use log_collector.Base.{ℕ, Bool, List}
use log_collector.Base.Int.{ℤ}
use log_collector.Base.Dict.{Dict}
use log_collector.Base.Text.{Text}

-- A `float64` by its bits, as IEEE 754 lays them out.
pub record Float64 : Type 0 where
  pub bits : ℕ

pub record FlowControlConfig : Type 0 where
  pub enabled : Bool
  pub rate_per_second : Float64
  pub burst : ℤ
  pub mode : Text
  pub report_interval : ℤ

pub record LogConfig : Type 0 where
  pub level : Text
  pub format : Text
  pub file : Text
  pub also_stdout : Bool
  pub max_size_mb : ℤ
  pub max_backups : ℤ
  pub max_age_days : ℤ
  pub compress : Bool

pub record StateConfig : Type 0 where
  pub path : Text

pub record PerformanceConfig : Type 0 where
  pub discovery_interval : ℤ
  pub read_interval : ℤ
  pub position_flush_interval : ℤ
  pub worker_count : ℤ
  pub max_read_bytes_per_file : ℤ
  pub max_log_size : ℤ
  pub max_multiline_size : ℤ
  pub max_multiline_lines : ℤ
  pub cache_ttl : ℤ

pub record AttributeExtractorConfig : Type 0 where
  pub key : Text
  pub pattern : Text

pub record TraceIdExtractorConfig : Type 0 where
  pub pattern : Text
  pub completion : Bool

pub record MultilineConfig : Type 0 where
  pub start_pattern : Text
  pub flush_after : ℤ

pub record ProcessRule : Type 0 where
  pub name : Text
  pub comm_regex : Text
  pub cmdline_regex : Text
  pub include_regex : Text
  pub exclude_regex : Text
  pub max_files : ℤ
  pub start_at : Text
  pub multiline : MultilineConfig
  pub attributes : Dict Text
  pub extractors : List AttributeExtractorConfig
  pub trace_id : TraceIdExtractorConfig
  pub drop_levels : List Text

pub record FileRule : Type 0 where
  pub name : Text
  pub includes : List Text
  pub excludes : List Text
  pub start_at : Text
  pub format : Text
  pub multiline : MultilineConfig
  pub attributes : Dict Text
  pub extractors : List AttributeExtractorConfig
  pub trace_id : TraceIdExtractorConfig
  pub drop_levels : List Text

pub record SourcesConfig : Type 0 where
  pub processes : List ProcessRule
  pub files : List FileRule
  pub containers : List FileRule

pub record RetryConfig : Type 0 where
  pub enabled : Bool
  pub initial : ℤ
  pub max_interval : ℤ
  pub max_elapsed : ℤ

pub record ExportConfig : Type 0 where
  pub enabled : Bool
  pub endpoint : Text
  pub headers : Dict Text
  pub compression : Text
  pub timeout : ℤ
  pub batch_size : ℤ
  pub max_batch_bytes : ℤ
  pub flush_interval : ℤ
  pub queue_size : ℤ
  pub max_queue_bytes : ℤ
  pub retry : RetryConfig

pub record WebhookConfig : Type 0 where
  pub enabled : Bool
  pub url : Text
  pub title : Text
  pub environment : Text
  pub severity_levels : List Text
  pub ignore_keywords : List Text
  pub error_type_keywords : List Text
  pub timeout : ℤ
  pub max_content_length : ℤ

pub record Config : Type 0 where
  pub log : LogConfig
  pub state : StateConfig
  pub sources : SourcesConfig
  pub export : ExportConfig
  pub webhook : WebhookConfig
  pub performance : PerformanceConfig
  pub flow_control : FlowControlConfig
