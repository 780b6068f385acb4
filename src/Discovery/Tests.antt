-- ===== src/Discovery/Tests.antt =====
-- The discovery's theorems at concrete inputs.
use log_collector.Base.{
  ℕ, ◌≡◌, ◌↔◌, refl, Bool, true, false, Option, none, some, List, [], ◌∷◌, ◌++◌, map, Elem, nat_eq,
  text_eq, arith,
}
use log_collector.Base.Int.{pos}
use log_collector.Base.Dict.{lookup}
use log_collector.Base.Text.{Text, bytes}
use log_collector.Model.{Regexp, FileTarget, Record, zero_time}
use log_collector.Config.{Config, SourcesConfig, FileRule, ProcessRule}
use log_collector.Config.Validate.{
  validate, validate_log, validate_export, validate_performance, validate_file_rule,
  validate_start_at, validate_attribute_extractors, validate_trace_id_extractor,
  validate_severity_levels,
}
use log_collector.Config.Valid.{AreDistinct}
use log_collector.Config.Defaults.{defaults, with_endpoint}
use log_collector.Tailer.Records.{prepared_record}
use log_collector.Exporter.Request.{group_key}
use log_collector.Discovery.Rules.{CompiledProcessRule, CompiledFileRule, Discovery, new_discovery}
use log_collector.Discovery.Rules.Laws.{new_discovery-total}
use log_collector.Discovery.Files.{glob_all, discover_files, file_target}
use log_collector.Discovery.Files.Laws.{IsTargetOf, discover_files_iff}
use log_collector.Discovery.Processes.{Process, process_target}
use log_collector.Discovery.Paths.{add_container_attributes}
use log_collector.Discovery.Paths.Laws.{log_path, HoldsContainer, add_container_attributes-log_path}
use log_collector.Discovery.Cycle.{deduplicate, prepare_resource}
use log_collector.Discovery.Cycle.Laws.{paths, first_of, prepared, remembered, deduplicate_lem}
use log_collector.Discovery.Cycle.Resource.{bare, without_key, prepared_record-prepare_resource}

abbrev any_text : Regexp
any_text = record { match_string = λ s. true; find_submatch = λ s. s ∷ []; num_subexp = 0 }

abbrev compile_all : Text → Option Regexp
compile_all p = some any_text

abbrev app_rule : FileRule
app_rule = record {
  name = b'a' ∷ [];
  includes = (b'g' ∷ []) ∷ [];
  excludes = (b'x' ∷ []) ∷ [];
  start_at = [];
  format = [];
  multiline = record { start_pattern = []; flush_after = pos 0 };
  attributes = [];
  extractors = [];
  trace_id = record { pattern = []; completion = false };
  drop_levels = [];
}

abbrev sources : SourcesConfig
sources = record { processes = []; files = app_rule ∷ []; containers = [] }

abbrev config_of_one : Config
config_of_one = record (with_endpoint (b'u' ∷ [])) { sources = sources }

config_of_one_valid : validate compile_all config_of_one ≡ none
unfolding validate bytes text_eq validate_log defaults validate_export validate_performance
    validate_file_rule validate_start_at validate_attribute_extractors validate_trace_id_extractor
    validate_severity_levels
config_of_one_valid = refl

new_discovery-total_example :
    (d : Discovery) × (new_discovery compile_all sources (pos 9) ≡ some d)
    × (map (λ r. r.rule) d.process_rules ≡ [])
    × (map (λ r. r.rule) d.files ≡ app_rule ∷ [])
    × (map (λ r. r.rule) d.containers ≡ [])
    × (d.seen ≡ [])
new_discovery-total_example =
    new_discovery-total compile_all config_of_one (pos 9) config_of_one_valid

abbrev compiled_app : CompiledFileRule
compiled_app = record {
  rule = app_rule;
  extractors = [];
  trace_id_extractor = none;
  drop_levels = [];
}

abbrev one_match : Text → List Text
one_match p = (b'/' ∷ p) ∷ []

abbrev is_there : Text → Bool
is_there p = true

discover_files_iff_example :
    (Elem
      (file_target compiled_app (b'f' ∷ []) (b'/' ∷ b'g' ∷ []))
      (discover_files one_match is_there (b'f' ∷ []) compiled_app))
    ↔ IsTargetOf one_match is_there compiled_app
        (b'f' ∷ [])
        (glob_all one_match ((b'x' ∷ []) ∷ []))
        (glob_all one_match ((b'g' ∷ []) ∷ []))
        (file_target compiled_app (b'f' ∷ []) (b'/' ∷ b'g' ∷ []))
discover_files_iff_example =
    discover_files_iff one_match is_there compiled_app (b'f' ∷ [])
      (file_target compiled_app (b'f' ∷ []) (b'/' ∷ b'g' ∷ []))

abbrev target_at : ℕ → FileTarget
target_at c = file_target compiled_app (b'f' ∷ []) (c ∷ [])

-- A path was seen at 1 and is found again at 5, twice, with a new one.
abbrev known_one : Discovery
known_one = record {
  process_rules = [];
  files = compiled_app ∷ [];
  containers = [];
  cache_ttl = pos 3;
  seen = ((b'p' ∷ [], pos 1)) ∷ [];
}

abbrev three_targets : List FileTarget
three_targets = target_at b'p' ∷ target_at b'q' ∷ target_at b'p' ∷ []

deduplicate_lem_example :
    AreDistinct [] (paths (deduplicate (pos 5) known_one three_targets).0)
    × (first_of (b'p' ∷ []) (deduplicate (pos 5) known_one three_targets).0
        ≡ prepared (first_of (b'p' ∷ []) three_targets))
    × (lookup (b'p' ∷ []) (deduplicate (pos 5) known_one three_targets).1.seen
        ≡ remembered (pos 5) (pos 3) three_targets ((b'p' ∷ [], pos 1) ∷ []) (b'p' ∷ []))
unfolding lookup
deduplicate_lem_example =
    deduplicate_lem (pos 5) known_one three_targets (b'p' ∷ []) (refl, tt) (omega arith)

prepared_record-prepare_resource_example :
    (r : Record) × (prepared_record
        (prepare_resource (bare (target_at b'p')))
        (b'h' ∷ [])
        zero_time
        none
      ≡ some r)
    × (prepared_record (bare (target_at b'p')) (b'h' ∷ []) zero_time none ≡ some (without_key r))
    × (group_key (λ t. 0) r ≡ group_key (λ t. 0) (without_key r))
prepared_record-prepare_resource_example =
    prepared_record-prepare_resource (λ t. 0) (target_at b'p') (b'h' ∷ []) zero_time none

abbrev process_rule : ProcessRule
process_rule = record {
  name = b'r' ∷ [];
  comm_regex = [];
  cmdline_regex = [];
  include_regex = b'.' ∷ [];
  exclude_regex = [];
  max_files = pos 1;
  start_at = [];
  multiline = record { start_pattern = []; flush_after = pos 0 };
  attributes = [];
  extractors = [];
  trace_id = record { pattern = []; completion = false };
  drop_levels = [];
}

abbrev compiled_process : CompiledProcessRule
compiled_process = record {
  rule = process_rule;
  comm = none;
  cmdline = some any_text;
  include = any_text;
  exclude = none;
  extractors = [];
  trace_id_extractor = none;
  drop_levels = [];
}

abbrev shell : Process
shell = record {
  pid = 7;
  name = some (b's' ∷ []);
  cmdline = b'c' ∷ [];
  open_files = some ((b'/' ∷ b'l' ∷ []) ∷ (b'/' ∷ b'm' ∷ []) ∷ []);
}

abbrev joined : List Text → Text
joined [] = []
joined (p ∷ ps) = p ++ joined ps

-- Only the paths themselves are files, not those under the process's root.
abbrev is_short : Text → Bool
is_short (c ∷ d ∷ []) = true
is_short _ = false

abbrev found_one : FileTarget
found_one =
    process_target compiled_process shell (b's' ∷ []) (b'c' ∷ []) (b'/' ∷ b'l' ∷ [])
      (b'/' ∷ b'l' ∷ [])

add_container_attributes-log_path_example :
    HoldsContainer
      (add_container_attributes []
        (log_path (b'd' ∷ []) (b'p' ∷ []) (b'n' ∷ []) (b'c' ∷ []) (b'1' ∷ [])))
      (b'p' ∷ [])
      (b'n' ∷ [])
      (b'c' ∷ [])
      (b'1' ∷ [])
add_container_attributes-log_path_example =
    add_container_attributes-log_path [] (b'd' ∷ []) (b'p' ∷ []) (b'n' ∷ []) (b'c' ∷ []) (b'1' ∷ [])
      ((λ e. omega arith), tt) ((λ e. omega arith), tt) ((λ e. omega arith), tt)
      ((λ e. omega arith), tt) ((λ e. omega arith), tt) (λ e. cc) ((λ e. omega arith), tt)
      ((λ e. omega arith), tt)
