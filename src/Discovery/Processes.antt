-- ===== src/Discovery/Processes.antt =====
-- internal/discovery/discovery.go: `discoverProcess` and `resolveProcessFile`. `join` is `filepath.Join`
-- and `is_regular` whether `os.Stat` finds a regular file.
pub mod Laws
use log_collector.Base.{
  ℕ, suc, Bool, true, false, not, ◌&&◌, ◌||◌, any, Option, none, some, List, [], ◌∷◌, ◌++◌, ◌==◌,
  nat_eq, text_eq, if◌then◌else◌,
}
use log_collector.Base.Int.{ℤ, pos, leb_ℤ, ltb_ℤ}
use log_collector.Base.Dict.{Dict, insert}
use log_collector.Base.Decimal.{format_uint}
use log_collector.Base.Text.{Text, bytes, trim_suffix, has_prefix}
use log_collector.Model.{FileTarget, Regexp}
use log_collector.Discovery.Rules.{CompiledProcessRule, start_at, multiline}

-- A process, as gopsutil shows it; `none` is an error, and a command line that cannot be read is empty.
pub record Process : Type 0 where
  pub pid : ℕ
  pub name : Option Text
  pub cmdline : Text
  pub open_files : Option (List Text)

-- A pattern that may be nil.
abbrev pub matches : Option Regexp → Text → Bool
matches none s = true
matches (some r) s = r.match_string s

abbrev pub is_set : Option Regexp → Bool
is_set none = false
is_set (some r) = true

-- The rules whose pattern fits.
unfoldable pub select_rules :
    (CompiledProcessRule → Option Regexp)
    → Text
    → List CompiledProcessRule
    → List CompiledProcessRule
select_rules pattern s [] = []
select_rules pattern s (r ∷ rs) =
    let rest = select_rules pattern s rs in if matches (pattern r) s then r ∷ rest else rest

-- `filepath.IsAbs`
abbrev pub is_abs : Text → Bool
is_abs [] = false
is_abs (c ∷ s) = c == b'/'

-- The tests on the path of an open file.
unfoldable pub is_excluded : CompiledProcessRule → Text → Bool
is_excluded rule path =
    not (is_abs path)
    || not (rule.include.match_string path)
    || (is_set rule.exclude && matches rule.exclude path)

unfoldable pub process_attributes : Process → Text → Text → Dict Text → Dict Text
unfolding bytes
process_attributes p comm cmdline attributes = insert (bytes "process.command_line") cmdline (
    insert (bytes "process.name") comm
      (insert (bytes "process.pid") (format_uint p.pid) attributes))

unfoldable pub process_target :
    CompiledProcessRule → Process → Text → Text → Text → Text → FileTarget
unfolding process_attributes start_at multiline bytes
process_target rule p comm cmdline source path = record {
  path = source;
  reported_path = path;
  source_type = bytes "process";
  rule = rule.rule.name;
  start_at = start_at rule.rule.start_at;
  format = [];
  multiline = multiline rule.rule.multiline;
  attributes = process_attributes p comm cmdline rule.rule.attributes;
  extractors = rule.extractors;
  trace_id_extractor = rule.trace_id_extractor;
  trace_id_completion = rule.rule.trace_id.completion;
  drop_levels = rule.drop_levels;
  resource_attributes = none;
  resource_key = [];
}

-- `strings.TrimPrefix(path, "/")`
abbrev pub without_slash : Text → Text
without_slash [] = []
without_slash (c ∷ s) = if c == b'/' then s else c ∷ s

-- `rule.rule.MaxFiles > 0 && count >= rule.rule.MaxFiles`
unfoldable pub is_enough : ℤ → ℕ → Bool
is_enough max_files count = ltb_ℤ (pos 0) max_files && leb_ℤ max_files (pos count)

module _ (join : List Text → Text) (is_regular : Text → Bool) where
  -- `resolveProcessFile`
  unfoldable pub resolve_process_file : Text → ℕ → Text → Option Text
  unfolding bytes
  resolve_process_file proc_root pid path =
      let inside = join (proc_root ∷ format_uint pid ∷ bytes "root" ∷ without_slash path ∷ []) in
      if is_regular inside then some inside else if is_regular path then some path else none

  -- The loop over the open files, with the count so far.
  unfoldable pub collect_open :
      CompiledProcessRule → Process → Text → Text → ℕ → List Text → List FileTarget
  unfolding process_target is_enough resolve_process_file bytes is_excluded
  collect_open rule p comm cmdline count [] = []
  collect_open rule p comm cmdline count (opened ∷ files) =
      let path = trim_suffix opened (bytes " (deleted)") in
      let skipped = collect_open rule p comm cmdline count files in
      let after = collect_open rule p comm cmdline (suc count) files in
      if is_excluded rule path
      then skipped
      else elim (resolve_process_file (bytes "/proc") p.pid path) [
        | none ↦ skipped
        | some source ↦
            process_target rule p comm cmdline source path
            ∷ (if is_enough rule.rule.max_files (suc count) then [] else after)
      ]

  unfoldable pub collect_rules :
      List CompiledProcessRule → Process → Text → Text → List Text → List FileTarget
  unfolding collect_open
  collect_rules [] p comm cmdline files = []
  collect_rules (r ∷ rs) p comm cmdline files =
      collect_open r p comm cmdline 0 files ++ collect_rules rs p comm cmdline files

  -- `discoverProcess`; where no rule is left, the loops find nothing.
  unfoldable pub discover_process : List CompiledProcessRule → Process → List FileTarget
  unfolding select_rules collect_rules
  discover_process rules p = elim p.name [
    | none ↦ []
    | some comm ↦
        let named = select_rules (λ r. r.comm) comm rules in
        let cmdline = if any (λ r. is_set r.cmdline) named then p.cmdline else [] in
        let matched = select_rules (λ r. r.cmdline) cmdline named in
        elim p.open_files [ none ↦ [] | some files ↦ collect_rules matched p comm cmdline files ]
  ]
