-- ===== src/Discovery/Rules/Laws.antt =====
-- internal/discovery/discovery.go, `New`, on the configurations that `Validate` accepts.
use log_collector.Base.{
  ◌≡◌, ◌≢◌, refl, ap, ◌∙◌, inl, inr, Option, none, some, List, [], ◌∷◌, map, All, ◌==◌, text_eq,
  Bool-cases, ne_of_eq_false,
}
use log_collector.Base.Options.{map_option}
use log_collector.Base.Int.{ℤ}
use log_collector.Base.Text.{Text}
use log_collector.Model.{Regexp, AttributeExtractor}
use log_collector.Config.Validate.{validate}
use log_collector.Config.Valid.Sections.{validate_iff}
use log_collector.Config.{
  Config, ProcessRule, FileRule, AttributeExtractorConfig, TraceIdExtractorConfig,
}
use log_collector.Config.Valid.{AreExtractors, IsTraceId, IsExpression, IsProcessRule, IsFileRule}
use log_collector.Discovery.Rules.{
  CompiledProcessRule, CompiledFileRule, Discovery, optional_regexp, drop_levels, compile_extractor,
  compile_extractors, compile_process_rule, compile_file_rule, new_discovery,
}

-- Steps that all succeed, and what they keep.
map_option-total {ℓ κ μ} :
    {A : Type ℓ} {B : Type κ} {C : Type μ} (f : A → Option B) (from : A → C) (to : B → C)
    (xs : List A)
    → All (λ x. (y : B) × (f x ≡ some y) × (to y ≡ from x)) xs
    → (ys : List B) × (map_option f xs ≡ some ys) × (map to ys ≡ map from xs)
map_option-total f from to [] h = ([], refl, refl)
map_option-total f from to (x ∷ xs) ((y, e, same), h) =
    let (ys, es, all_same) = map_option-total f from to xs h in (y ∷ ys, rw (e, es) refl, cc)

map_id {ℓ} : {A : Type ℓ} (xs : List A) → map (λ x. x) xs ≡ xs
map_id [] = refl
map_id (x ∷ xs) = ap (◌∷◌ x) (map_id xs)

All-map {ℓ κ μ} :
    {A : Type ℓ} {P : A → Type κ} {Q : A → Type μ} (xs : List A)
    → ((x : A) → P x → Q x)
    → All P xs
    → All Q xs
All-map [] f h = tt
All-map (x ∷ xs) f (p, h) = (f x p, All-map xs f h)

module _ (compile : Text → Option Regexp) where
  optional_regexp-total :
      (p : Text)
      → IsExpression compile p
      → (o : Option Regexp) × (optional_regexp compile p ≡ some o)
  unfolding optional_regexp
  optional_regexp-total p h = elim (Bool-cases (p == [])) [
    | inl blank ↦ (none, rw blank refl)
    | inr given ↦ elim h [
      | inl nil ↦ absurd (ne_of_eq_false given nil)
      | inr (r, e) ↦ (some r, rw (given, e, optional_regexp) refl)
    ]
  ]

  trace_id-total :
      (x : TraceIdExtractorConfig)
      → IsTraceId compile x
      → (o : Option Regexp) × (optional_regexp compile x.pattern ≡ some o)
  trace_id-total x h =
      optional_regexp-total x.pattern (elim h [ inl nil ↦ inl nil | inr (r, e, g) ↦ inr (r, e) ])

  extractors-total :
      (xs : List AttributeExtractorConfig)
      → AreExtractors compile xs
      → (ys : List AttributeExtractor) × (compile_extractors compile xs ≡ some ys)
  unfolding compile_extractors compile_extractor
  extractors-total xs (h, _) =
      let (ys, e, _) =
        map_option-total (compile_extractor compile) (λ x. x.key) (λ y. y.key) xs
          (All-map xs
            (λ x (_, _, (r, e, _)).
              (record { key = x.key; pattern = r }, rw (e, compile_extractor) refl, refl))
            h) in
      (ys, e)

  file_rule-total :
      (r : FileRule)
      → IsFileRule compile r
      → (c : CompiledFileRule) × (compile_file_rule compile r ≡ some c) × (c.rule ≡ r)
  unfolding compile_file_rule
  file_rule-total r (_, (_, (_, (_, (xs, (t, _)))))) =
      let (extractors, e) = extractors-total r.extractors xs in
      let (pattern, f) = trace_id-total r.trace_id t in
      (
        record {
          rule = r;
          extractors = extractors;
          trace_id_extractor = pattern;
          drop_levels = drop_levels r.drop_levels;
        },
        rw (e, f, compile_file_rule) refl,
        refl,
      )

  -- The pattern of the paths is not empty, so it is compiled.
  include-total : (p : Text) → p ≢ [] → IsExpression compile p → (r : Regexp) × (compile p ≡ some r)
  include-total p given (inl nil) = absurd (given nil)
  include-total p given (inr c) = c

  process_rule-total :
      (r : ProcessRule)
      → IsProcessRule compile r
      → (c : CompiledProcessRule) × (compile_process_rule compile r ≡ some c) × (c.rule ≡ r)
  unfolding compile_process_rule
  process_rule-total r ((_, _, given), (_, ((a, (b, (c, (d, _)))), (xs, (t, _))))) =
      let (comm, e) = optional_regexp-total r.comm_regex a in
      let (cmdline, f) = optional_regexp-total r.cmdline_regex b in
      let (include, g) = include-total r.include_regex given c in
      let (exclude, h) = optional_regexp-total r.exclude_regex d in
      let (extractors, i) = extractors-total r.extractors xs in
      let (pattern, j) = trace_id-total r.trace_id t in
      (
        record {
          rule = r;
          comm = comm;
          cmdline = cmdline;
          include = include;
          exclude = exclude;
          extractors = extractors;
          trace_id_extractor = pattern;
          drop_levels = drop_levels r.drop_levels;
        },
        rw (e, f, g, h, i, j, compile_process_rule) refl,
        refl,
      )

  file_rules-total :
      (rs : List FileRule)
      → All (IsFileRule compile) rs
      → (cs : List CompiledFileRule) × (map_option (compile_file_rule compile) rs ≡ some cs)
        × (map (λ c. c.rule) cs ≡ map (λ r. r) rs)
  file_rules-total rs h =
      map_option-total (compile_file_rule compile) (λ r. r) (λ c. c.rule) rs
        (All-map rs file_rule-total h)

-- Where Validate accepts a configuration, New of the discovery succeeds on its sources: it
-- compiles every rule, keeps the rules in their order, and starts with no path seen.
pub new_discovery-total :
    (compile : Text → Option Regexp) (c : Config) (cache_ttl : ℤ)
    → validate compile c ≡ none
    → (d : Discovery) × (new_discovery compile c.sources cache_ttl ≡ some d)
      × (map (λ r. r.rule) d.process_rules ≡ c.sources.processes)
      × (map (λ r. r.rule) d.files ≡ c.sources.files)
      × (map (λ r. r.rule) d.containers ≡ c.sources.containers)
      × (d.seen ≡ [])
unfolding new_discovery
new_discovery-total compile c cache_ttl fine =
    let (_, (_, (_, (_, (_, (_, (_, (processes, (files, containers))))))))) =
      (validate_iff compile c).0 fine in
    let (ps, e, same_p) =
      map_option-total (compile_process_rule compile) (λ r. r) (λ c. c.rule) c.sources.processes
        (All-map c.sources.processes (process_rule-total compile) processes) in
    let (fs, f, same_f) = file_rules-total compile c.sources.files files in
    let (cs, g, same_c) = file_rules-total compile c.sources.containers containers in
    (
      record { process_rules = ps; files = fs; containers = cs; cache_ttl = cache_ttl; seen = [] },
      rw (e, f, g, new_discovery) refl,
      same_p ∙ map_id c.sources.processes,
      same_f ∙ map_id c.sources.files,
      same_c ∙ map_id c.sources.containers,
      refl,
    )
