-- ===== src/Discovery/Rules.antt =====
-- internal/discovery/discovery.go: `New` with `compileExtractors`, `optionalRegexp`, `dropLevels`,
-- `startAt` and `multiline`.
pub mod Laws
use log_collector.Base.{Option, none, some, List, [], ◌∷◌, ◌==◌, text_eq, map, if◌then◌else◌}
use log_collector.Base.Options.{◌>>=◌, map_option}
use log_collector.Base.Int.{ℤ}
use log_collector.Base.Dict.{Dict}
use log_collector.Base.Text.{Text, bytes}
use log_collector.Model.{AttributeExtractor, Multiline, Regexp, Time}
use log_collector.Config.{
  ProcessRule, FileRule, SourcesConfig, AttributeExtractorConfig, MultilineConfig,
}
use log_collector.Config.Validate.{normalize}

pub record CompiledProcessRule : Type 0 where
  pub rule : ProcessRule
  pub comm : Option Regexp
  pub cmdline : Option Regexp
  pub include : Regexp
  pub exclude : Option Regexp
  pub extractors : List AttributeExtractor
  pub trace_id_extractor : Option Regexp
  pub drop_levels : List Text

pub record CompiledFileRule : Type 0 where
  pub rule : FileRule
  pub extractors : List AttributeExtractor
  pub trace_id_extractor : Option Regexp
  pub drop_levels : List Text

-- `seen` maps a path to when it was last found.
pub record Discovery : Type 0 where
  pub process_rules : List CompiledProcessRule
  pub files : List CompiledFileRule
  pub containers : List CompiledFileRule
  pub cache_ttl : ℤ
  pub seen : Dict Time

-- `dropLevels`
unfoldable pub drop_levels : List Text → List Text
drop_levels values = map normalize values

-- `startAt`
unfoldable pub start_at : Text → Text
unfolding bytes
start_at v = if v == [] then bytes "end" else v

-- `multiline`
unfoldable pub multiline : MultilineConfig → Multiline
multiline v = record { start_pattern = v.start_pattern; flush_after = v.flush_after }

module _ (compile : Text → Option Regexp) where
  -- `optionalRegexp`: none is an error, and `some none` the nil pattern.
  unfoldable pub optional_regexp : Text → Option (Option Regexp)
  optional_regexp s =
      if s == [] then some none else elim (compile s) [ none ↦ none | some r ↦ some (some r) ]

  unfoldable pub compile_extractor : AttributeExtractorConfig → Option AttributeExtractor
  compile_extractor value = do
    pattern ← compile value.pattern
    some (record { key = value.key; pattern = pattern })

  -- `compileExtractors`
  unfoldable pub compile_extractors :
      List AttributeExtractorConfig → Option (List AttributeExtractor)
  unfolding compile_extractor
  compile_extractors values = map_option compile_extractor values

  unfoldable pub compile_process_rule : ProcessRule → Option CompiledProcessRule
  unfolding optional_regexp compile_extractors drop_levels
  compile_process_rule rule = do
    comm ← optional_regexp rule.comm_regex
    cmdline ← optional_regexp rule.cmdline_regex
    include ← compile rule.include_regex
    exclude ← optional_regexp rule.exclude_regex
    extractors ← compile_extractors rule.extractors
    trace_id_extractor ← optional_regexp rule.trace_id.pattern
    some (record {
      rule = rule;
      comm = comm;
      cmdline = cmdline;
      include = include;
      exclude = exclude;
      extractors = extractors;
      trace_id_extractor = trace_id_extractor;
      drop_levels = drop_levels rule.drop_levels;
    })

  unfoldable pub compile_file_rule : FileRule → Option CompiledFileRule
  unfolding optional_regexp compile_extractors drop_levels
  compile_file_rule rule = do
    extractors ← compile_extractors rule.extractors
    trace_id_extractor ← optional_regexp rule.trace_id.pattern
    some (record {
      rule = rule;
      extractors = extractors;
      trace_id_extractor = trace_id_extractor;
      drop_levels = drop_levels rule.drop_levels;
    })

  -- `New`; none is an error.
  unfoldable pub new_discovery : SourcesConfig → ℤ → Option Discovery
  unfolding compile_process_rule compile_file_rule
  new_discovery cfg cache_ttl = do
    process_rules ← map_option compile_process_rule cfg.processes
    files ← map_option compile_file_rule cfg.files
    containers ← map_option compile_file_rule cfg.containers
    some (record {
      process_rules = process_rules;
      files = files;
      containers = containers;
      cache_ttl = cache_ttl;
      seen = [];
    })
