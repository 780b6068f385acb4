-- ===== src/Config/Valid/Lists.antt =====
-- internal/config/config.go: the validators with a set of what they have seen, and the expressions.
use log_collector.Base.{
  ◌≡◌, ◌↔◌, refl, sym, ap, inl, inr, Bool, true, false, not, any, Option, none, some, List, [], ◌∷◌,
  ◌==◌, text_eq, map, All, Elem, Bool-cases, Option-cases, arith, ltb, subst, ◌<◌, ne_of_eq_false,
  ==→≡,
}
use mathlib.Core.Option.{some-injective}
use log_collector.Base.Checks.{reject, reject-none, both, ↔-trans}
use log_collector.Base.Member.{any_sound, any_complete}
use log_collector.Base.Text.{Text}
use log_collector.Model.{Regexp}
use log_collector.Config.{AttributeExtractorConfig, TraceIdExtractorConfig}
use log_collector.Config.Validate.{
  ConfigError, normalize, level_names, is_blank, check_distinct, validate_keyword_list,
  validate_severity_levels, check_pattern, validate_attribute_extractors,
  validate_trace_id_extractor, check_expression, trace_id_pattern, trace_id_group,
  extractor_pattern, extractor_group,
}
use log_collector.Config.Valid.{
  AreDistinct, AreLevels, AreKeywords, HasGroup, AreExtractors, IsTraceId, IsExpression,
}

-- A test that is turned down, with its meaning.
pub rejects {ℓ κ} :
    {E : Type ℓ} {P : Type κ} (b : Bool) (e : E)
    → (b ≡ false → P)
    → (P → b ≡ false)
    → (reject b e ≡ none) ↔ P
rejects b e f g = ↔-trans (reject-none b e) (f, g)

unseen : (k : Text) (seen : List Text) → (any (λ j. j == k) seen ≡ false) ↔ (¬ Elem k seen)
unseen k seen = (
  (λ e m. let f = any_complete k seen m in cc),
  λ h. elim (Bool-cases (any (λ j. j == k) seen)) [
    | inl e ↦ absurd (h (any_sound k seen e))
    | inr e ↦ e
  ],
)

module _ {ℓ κ} {A : Type ℓ} {P : A → Type κ} (before after : A → Option ConfigError)
    (key : A → Text) (dup : ConfigError)
    (fine : (x : A) → ((before x ≡ none) × (after x ≡ none)) ↔ P x) where
  check_distinct-none :
      (seen : List Text) (xs : List A)
      → (check_distinct before key dup after seen xs ≡ none)
        ↔ (All P xs × AreDistinct seen (map key xs))
  unfolding check_distinct
  check_distinct-none seen [] = ((λ e. (tt, tt)), (λ h. refl))
  check_distinct-none seen (x ∷ xs) =
      let (to, from) =
        both {a = before x} (λ e. e, λ e. e)
          (both {a = reject (any (λ k. k == key x) seen) dup}
            (rejects (any (λ k. k == key x) seen) dup (unseen (key x) seen).0
              (unseen (key x) seen).1)
            (both {a = after x} (λ e. e, λ e. e) (check_distinct-none (key x ∷ seen) xs))) in
      let (ok, why) = fine x in
      (
        (λ e. let (b, (new, (a, (rest, apart)))) = to e in ((ok (b, a), rest), (new, apart))),
        (λ ((p, rest), (new, apart)). let (b, a) = why p in from (b, (new, (a, (rest, apart))))),
      )

pub validate_keyword_list_iff :
    (ks : List Text) → (validate_keyword_list ks ≡ none) ↔ AreKeywords ks
unfolding validate_keyword_list
validate_keyword_list_iff ks =
    check_distinct-none _ _ (λ k. k) _
      (λ k. (
        (λ (e, _). (reject-none (is_blank k) _).0 e),
        (λ h. ((reject-none (is_blank k) _).1 h, refl)),
      ))
      [] ks

ne_false : (b : Bool) → not b ≡ false → b ≡ true
ne_false true e = refl
ne_false false e = cc

pub validate_severity_levels_iff :
    (ls : List Text) → (validate_severity_levels ls ≡ none) ↔ AreLevels ls
unfolding validate_severity_levels
validate_severity_levels_iff ls =
    check_distinct-none _ _ normalize _
      (λ l. (
        (λ (e, _). any_sound (normalize l) level_names (ne_false _ ((reject-none _ _).0 e))),
        (λ m. ((reject-none _ _).1 (ap not (any_complete (normalize l) level_names m)), refl)),
      ))
      [] ls

group_iff :
    (o : Option Regexp) (invalid no_group : ConfigError)
    → (elim o [ none ↦ some invalid | some compiled ↦ reject (ltb compiled.num_subexp 1) no_group ]
        ≡ none)
      ↔ ((r : Regexp) × (o ≡ some r) × (0 < r.num_subexp))
group_iff none invalid no_group = ((λ e. cc), (λ (r, e, h). cc))
group_iff (some c) invalid no_group =
    let positive : (ltb c.num_subexp 1 ≡ false) ↔ (0 < c.num_subexp) =
      (λ e. ground arith, λ h. ground arith) in
    (
      (λ e. (c, refl, positive.0 ((reject-none _ _).0 e))),
      (λ (r, e, h).
          (reject-none _ _).1
            (positive.1 (subst (λ s. 0 < s.num_subexp) (sym (some-injective c r e)) h))),
    )

module _ (compile : Text → Option Regexp) where
  pub check_pattern_iff :
      (invalid no_group : ConfigError) (p : Text)
      → (check_pattern compile invalid no_group p ≡ none) ↔ HasGroup compile p
  unfolding check_pattern
  check_pattern_iff invalid no_group p = group_iff (compile p) invalid no_group

  pub check_expression_iff :
      (p : Text) → (check_expression compile p ≡ none) ↔ IsExpression compile p
  unfolding check_expression
  check_expression_iff p = elim (Bool-cases (p == [])) [
    | inl blank ↦ rw blank ((λ e. inl (==→≡ _ _ blank)), (λ h. refl))
    | inr given ↦ elim (Option-cases (compile p)) [
      | inl e ↦
          rw (given, e)
            (
              (λ f. cc),
              (λ h. elim h [ inl nil ↦ absurd (ne_of_eq_false given nil) | inr (r, f) ↦ cc ]),
            )
      | inr (r, e) ↦ rw (given, e) ((λ f. inr (r, refl)), (λ h. refl))
    ]
  ]

  pub validate_trace_id_extractor_iff :
      (x : TraceIdExtractorConfig)
      → (validate_trace_id_extractor compile x ≡ none) ↔ IsTraceId compile x
  unfolding validate_trace_id_extractor
  validate_trace_id_extractor_iff x = elim (Bool-cases (x.pattern == [])) [
    | inl blank ↦ rw blank ((λ e. inl (==→≡ _ _ blank)), (λ h. refl))
    | inr given ↦ rw given (
        let (to, from) = check_pattern_iff trace_id_pattern trace_id_group x.pattern in
        (
          (λ e. inr (to e)),
          (λ h. elim h [ inl nil ↦ absurd (ne_of_eq_false given nil) | inr g ↦ from g ]),
        ))
  ]

  pub validate_attribute_extractors_iff :
      (xs : List AttributeExtractorConfig)
      → (validate_attribute_extractors compile xs ≡ none) ↔ AreExtractors compile xs
  unfolding validate_attribute_extractors
  validate_attribute_extractors_iff xs =
      check_distinct-none _ _ (λ x. x.key) _
        (λ x.
          let (to, from) = check_pattern_iff extractor_pattern extractor_group x.pattern in
          (
            (λ (e, f).
                let given = (reject-none _ _).0 e in
                (ground (arith, given), ground (arith, given), to f)),
            (λ (key, pattern, group).
                ((reject-none _ _).1 (ground (arith, key, pattern)), from group)),
          ))
        [] xs
