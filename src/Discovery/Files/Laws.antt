-- ===== src/Discovery/Files/Laws.antt =====
-- internal/discovery/discovery.go, `discoverFiles`: the targets of a rule.
use log_collector.Base.{
  ◌≡◌, refl, ap, sym, ◌∙◌, ◌⊎◌, ◌↔◌, inl, inr, Bool, true, false, not, ◌||◌, any, List, [], ◌∷◌,
  ◌==◌, text_eq, Elem, here, there, Bool-cases, subst,
}
use log_collector.Base.Member.{any_sound, any_complete, append-Elem}
use log_collector.Base.Text.{Text}
use log_collector.Model.{FileTarget}
use log_collector.Discovery.Rules.{CompiledFileRule}
use log_collector.Discovery.Files.{
  glob_all, file_target, collect_matches, collect_patterns, discover_files,
}

module _ (glob : Text → List Text) (is_regular : Text → Bool) (compiled : CompiledFileRule)
    (source_type : Text) where
  -- The target of a path that is a regular file and not excluded.
  abbrev pub IsTarget : List Text → FileTarget → Text → Type 0
  IsTarget excluded t p =
      (¬ Elem p excluded) × (is_regular p ≡ true) × (t ≡ file_target compiled source_type p)

  -- A target of one of the paths.
  abbrev pub IsTargetOf : List Text → List Text → FileTarget → Type 0
  IsTargetOf excluded paths t = (p : Text) × Elem p paths × IsTarget excluded t p

  -- The test of the loop.
  skips_iff :
      (excluded : List Text) (p : Text)
      → (any (λ q. q == p) excluded || not (is_regular p) ≡ false)
        ↔ ((¬ Elem p excluded) × (is_regular p ≡ true))
  skips_iff excluded p = elim (Bool-cases (any (λ q. q == p) excluded)) [
    | inl e ↦ rw e ((λ f. cc), (λ (h, r). absurd (h (any_sound p excluded e))))
    | inr e ↦ elim (Bool-cases (is_regular p)) [
      | inl r ↦
          rw (e, r) ((λ f. ((λ m. let c = any_complete p excluded m in cc), refl)), (λ h. refl))
      | inr r ↦ rw (e, r) ((λ f. cc), (λ (h, f). cc))
    ]
  ]

  -- A target of the first path or of another.
  IsTargetOf-cons :
      (excluded : List Text) (p : Text) (ps : List Text) (t : FileTarget)
      → IsTargetOf excluded (p ∷ ps) t
      → (((¬ Elem p excluded) × (is_regular p ≡ true)) × (t ≡ file_target compiled source_type p))
        ⊎ IsTargetOf excluded ps t
  IsTargetOf-cons excluded p ps t (q, here e, (out, r, same)) = inl (
    ((λ m. out (subst (λ s. Elem s excluded) (sym e) m)), ap is_regular (sym e) ∙ r),
    same ∙ ap (file_target compiled source_type) e,
  )
  IsTargetOf-cons excluded p ps t (q, there m, good) = inr (q, m, good)

  IsTargetOf-there :
      (excluded : List Text) (p : Text) (ps : List Text) (t : FileTarget)
      → IsTargetOf excluded ps t
      → IsTargetOf excluded (p ∷ ps) t
  IsTargetOf-there excluded p ps t (q, m, rest) = (q, there m, rest)

  collect_matches_iff :
      (excluded paths : List Text) (t : FileTarget)
      → Elem t (collect_matches glob is_regular compiled source_type excluded paths)
        ↔ IsTargetOf excluded paths t
  unfolding collect_matches
  collect_matches_iff excluded [] t = ((λ m. elim m [ ]), (λ (p, m, _). elim m [ ]))
  collect_matches_iff excluded (p ∷ ps) t =
      let (to, from) = collect_matches_iff excluded ps t in
      let (kept, skip) = skips_iff excluded p in
      elim (Bool-cases (any (λ q. q == p) excluded || not (is_regular p))) [
        | inl out ↦ rw out (
          (λ m. IsTargetOf-there excluded p ps t (to m)),
          (λ h. elim (IsTargetOf-cons excluded p ps t h) [
            | inl (good, _) ↦ let f = skip good in cc
            | inr rest ↦ from rest
          ]),
        )
        | inr fine ↦ rw fine (
          (λ m. elim m [
            | here e ↦ let (out, r) = kept fine in (p, here refl, (out, r, e))
            | there n ↦ IsTargetOf-there excluded p ps t (to n)
          ]),
          (λ h. elim (IsTargetOf-cons excluded p ps t h) [
            | inl (_, same) ↦ here same
            | inr rest ↦ there (from rest)
          ]),
        )
      ]

  collect_patterns_iff :
      (excluded ps : List Text) (t : FileTarget)
      → Elem t (collect_patterns glob is_regular compiled source_type excluded ps)
        ↔ IsTargetOf excluded (glob_all glob ps) t
  unfolding collect_patterns
  collect_patterns_iff excluded [] t = ((λ m. elim m [ ]), (λ (p, m, _). elim m [ ]))
  collect_patterns_iff excluded (p ∷ ps) t =
      let (to, from) = collect_matches_iff excluded (glob p) t in
      let (into, back) = collect_patterns_iff excluded ps t in
      let (split, join) =
        append-Elem t (collect_matches glob is_regular compiled source_type excluded (glob p))
          (collect_patterns glob is_regular compiled source_type excluded ps) in
      (
        (λ m. elim (split m) [
          | inl l ↦
              let (q, n, rest) = to l in
              (q, (append-Elem q (glob p) (glob_all glob ps)).1 (inl n), rest)
          | inr r ↦
              let (q, n, rest) = into r in
              (q, (append-Elem q (glob p) (glob_all glob ps)).1 (inr n), rest)
        ]),
        (λ (q, n, rest). elim ((append-Elem q (glob p) (glob_all glob ps)).0 n) [
          | inl l ↦ join (inl (from (q, l, rest)))
          | inr r ↦ join (inr (back (q, r, rest)))
        ]),
      )

  -- The targets of a rule on files or containers are exactly those of the paths that one of its
  -- patterns matches, that no pattern to exclude matches, and that are regular files.
  pub discover_files_iff :
      (t : FileTarget)
      → Elem t (discover_files glob is_regular source_type compiled)
        ↔ IsTargetOf (glob_all glob compiled.rule.excludes) (glob_all glob compiled.rule.includes) t
  unfolding discover_files
  discover_files_iff t =
      collect_patterns_iff (glob_all glob compiled.rule.excludes) compiled.rule.includes t
