-- ===== src/Discovery/Processes/Laws.antt =====
-- internal/discovery/discovery.go, `discoverProcess`: the targets of one rule.
use log_collector.Base.{
  nat_eq, ℕ, suc, ◌+◌, ◌≡◌, ◌⊎◌, inl, inr, Bool, true, false, some, List, [], ◌∷◌, text_eq, Elem,
  length, Bool-cases, Option-cases, arith,
}
use log_collector.Base.Int.{ℤ, pos, ◌<ℤ◌, ◌≤ℤ◌}
use log_collector.Base.Text.{Text, bytes, trim_suffix}
use log_collector.Base.Decimal.{format_uint}
use log_collector.Model.{FileTarget, Regexp}
use log_collector.Discovery.Rules.{CompiledProcessRule}
use log_collector.Discovery.Processes.{
  Process, matches, is_excluded, is_enough, without_slash, resolve_process_file, process_target,
  collect_open,
}

module _ (join : List Text → Text) (is_regular : Text → Bool) (rule : CompiledProcessRule)
    (p : Process) (comm cmdline : Text) where
  -- An absolute path that the rule includes and does not exclude.
  abbrev pub IsWanted : Text → Type 0
  IsWanted path =
      ((rest : Text) × (path ≡ b'/' ∷ rest))
      × (rule.include.match_string path ≡ true)
      × ((e : Regexp) → rule.exclude ≡ some e → e.match_string path ≡ false)

  -- A target of the rule whose reported path passes its patterns and whose path is a regular file, inside
  -- the root of the process or the reported path itself.
  abbrev pub IsFound : FileTarget → Type 0
  IsFound t =
      (t ≡ process_target rule p comm cmdline t.path t.reported_path)
      × IsWanted t.reported_path
      × (is_regular t.path ≡ true)
      × ((t.path
            ≡ join (
                bytes "/proc"
                ∷ format_uint p.pid
                ∷ bytes "root"
                ∷ without_slash t.reported_path
                ∷ []))
          ⊎ (t.path ≡ t.reported_path))

  not_enough :
      (max_files : ℤ) (count : ℕ)
      → pos 0 <ℤ max_files
      → is_enough max_files count ≡ false
      → pos count <ℤ max_files
  unfolding is_enough
  not_enough max_files count h e = ground arith

  collect_open_bounded :
      (count : ℕ) (files : List Text)
      → pos 0 <ℤ rule.rule.max_files
      → pos count <ℤ rule.rule.max_files
      → pos (count + length (collect_open join is_regular rule p comm cmdline count files))
        ≤ℤ rule.rule.max_files
  unfolding collect_open process_target
  collect_open_bounded count [] h k = omega arith
  collect_open_bounded count (opened ∷ files) h k =
      let path = trim_suffix opened (bytes " (deleted)") in
      let skipped = collect_open_bounded count files h k in
      elim (Bool-cases (is_excluded rule path)) [
        | inl out ↦ rw out skipped
        | inr fine ↦
            elim (Option-cases (resolve_process_file join is_regular (bytes "/proc") p.pid path)) [
              | inl e ↦ rw (fine, e) skipped
              | inr (source, e) ↦ elim (Bool-cases (is_enough rule.rule.max_files (suc count))) [
                | inl full ↦ rw (fine, e, full) (omega arith)
                | inr more ↦
                    let after =
                      collect_open_bounded (suc count) files h
                        (not_enough rule.rule.max_files (suc count) h more) in
                    rw (fine, e, more) (omega arith)
              ]
            ]
      ]

module _ (join : List Text → Text) (is_regular : Text → Bool) where
  -- A target of a rule that fits the process.
  abbrev pub IsOfProcess : List CompiledProcessRule → Process → FileTarget → Type 0
  IsOfProcess rules p t =
      (comm : Text) × (cmdline : Text) × (r : CompiledProcessRule) × (p.name ≡ some comm)
      × Elem r rules
      × (matches r.comm comm ≡ true)
      × (matches r.cmdline p.cmdline ≡ true)
      × IsFound join is_regular r p comm cmdline t

  -- Where a rule has a positive limit of files, one process gives at most that many targets of
  -- it.
  pub collect_open_limit :
      (rule : CompiledProcessRule) (p : Process) (comm cmdline : Text) (files : List Text)
      → pos 0 <ℤ rule.rule.max_files
      → pos (length (collect_open join is_regular rule p comm cmdline 0 files))
        ≤ℤ rule.rule.max_files
  collect_open_limit rule p comm cmdline files h =
      let b = collect_open_bounded join is_regular rule p comm cmdline 0 files h h in omega arith
