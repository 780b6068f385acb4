-- ===== src/Discovery/Files.antt =====
-- internal/discovery/discovery.go: `discoverFiles`. `glob` is `filepath.Glob` without its error, and
-- `is_regular` whether `os.Stat` finds a regular file.
pub mod Laws
use log_collector.Base.{
  Bool, true, false, not, ◌&&◌, ◌||◌, any, Option, none, some, List, [], ◌∷◌, ◌++◌, ◌==◌, text_eq,
  if◌then◌else◌,
}
use log_collector.Base.Int.{ℤ}
use log_collector.Base.Dict.{Dict}
use log_collector.Base.Text.{Text, bytes}
use log_collector.Model.{FileTarget}
use log_collector.Discovery.Rules.{CompiledFileRule, start_at, multiline}
use log_collector.Discovery.Paths.{add_container_attributes}

-- The matches of several patterns.
abbrev pub glob_all : (Text → List Text) → List Text → List Text
glob_all glob [] = []
glob_all glob (p ∷ ps) = glob p ++ glob_all glob ps

unfoldable pub file_attributes : Text → Dict Text → Text → Dict Text
unfolding bytes
file_attributes source_type attributes path =
    if source_type == bytes "container"
    then add_container_attributes attributes path
    else attributes

unfoldable pub file_target : CompiledFileRule → Text → Text → FileTarget
unfolding file_attributes start_at multiline
file_target compiled source_type path = record {
  path = path;
  reported_path = [];
  source_type = source_type;
  rule = compiled.rule.name;
  start_at = start_at compiled.rule.start_at;
  format = compiled.rule.format;
  multiline = multiline compiled.rule.multiline;
  attributes = file_attributes source_type compiled.rule.attributes path;
  extractors = compiled.extractors;
  trace_id_extractor = compiled.trace_id_extractor;
  trace_id_completion = compiled.rule.trace_id.completion;
  drop_levels = compiled.drop_levels;
  resource_attributes = none;
  resource_key = [];
}

module _ (glob : Text → List Text) (is_regular : Text → Bool) where
  -- The loop over the matches of one pattern.
  unfoldable pub collect_matches : CompiledFileRule → Text → List Text → List Text → List FileTarget
  collect_matches compiled source_type excluded [] = []
  collect_matches compiled source_type excluded (path ∷ paths) =
      let rest = collect_matches compiled source_type excluded paths in
      if any (λ p. p == path) excluded || not (is_regular path)
      then rest
      else file_target compiled source_type path ∷ rest

  unfoldable pub collect_patterns :
      CompiledFileRule → Text → List Text → List Text → List FileTarget
  unfolding collect_matches
  collect_patterns compiled source_type excluded [] = []
  collect_patterns compiled source_type excluded (p ∷ ps) =
      collect_matches compiled source_type excluded (glob p)
      ++ collect_patterns compiled source_type excluded ps

  -- `discoverFiles`
  unfoldable pub discover_files : Text → CompiledFileRule → List FileTarget
  unfolding collect_patterns
  discover_files source_type compiled =
      collect_patterns compiled source_type (glob_all glob compiled.rule.excludes)
        compiled.rule.includes
