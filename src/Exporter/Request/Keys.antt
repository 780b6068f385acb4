-- ===== src/Exporter/Request/Keys.antt =====
-- internal/exporter/otlphttp.go, `attributeKey`: it tells the attributes of resources apart.
use log_collector.Base.{
  ◌≡◌, ◌≢◌, refl, ap, sym, ◌∙◌, none, some, [], ◌∷◌, ◌++◌, ◌==◌, text_eq, nat_eq, All,
  if◌then◌else◌, Bool-cases, inl, inr, arith, append_assoc,
}
use log_collector.Base.Dict.{Dict, lookup, NodupKeys}
use log_collector.Base.Text.{Text}
use log_collector.Exporter.Request.{text_leb, insert_sorted, key_values, written, attribute_key}

-- No byte is zero.
abbrev pub HasNoNul : Text → Type 0
HasNoNul s = All (λ c. c ≢ 0) s

abbrev pub AreClean : Dict Text → Type 0
AreClean d = All (λ e. HasNoNul e.0 × HasNoNul e.1) d

-- What stands before the first zero, and behind it, is determined.
nul_split : (p q r t : Text) → HasNoNul p → HasNoNul q → p ++ 0 ∷ r ≡ q ++ 0 ∷ t → (p ≡ q) × (r ≡ t)
nul_split [] [] r t h k e = (refl, cc)
nul_split [] (y ∷ q) r t h (k, ks) e = absurd (k (cc))
nul_split (x ∷ p) [] r t (h, hs) k e = absurd (h (cc))
nul_split (x ∷ p) (y ∷ q) r t (h, hs) (k, ks) e =
    let (same, rest) = nul_split p q r t hs ks (cc) in (cc, rest)

-- What is written of an entry is not empty.
not_nil : (k v : Text) (d : Dict Text) → written ((k, v) ∷ d) ≢ []
unfolding written
not_nil [] v d e = cc
not_nil (x ∷ k) v d e = cc

written-cons :
    (k v : Text) (d : Dict Text) → written ((k, v) ∷ d) ≡ k ++ (0 ∷ (v ++ (0 ∷ written d)))
unfolding written
written-cons k v d = append_assoc k (0 ∷ v) (0 ∷ written d)

written-injective : (d d' : Dict Text) → AreClean d → AreClean d' → written d ≡ written d' → d ≡ d'
unfolding written
written-injective [] [] h h' e = refl
written-injective [] ((k, v) ∷ d) h h' e = absurd (not_nil k v d (sym e))
written-injective ((k, v) ∷ d) [] h h' e = absurd (not_nil k v d e)
written-injective ((k, v) ∷ d) ((k', v') ∷ d') ((hk, hv), h) ((hk', hv'), h') e =
    let (keys, behind) =
      nul_split k k' (v ++ (0 ∷ written d)) (v' ++ (0 ∷ written d')) hk hk'
        (sym (written-cons k v d) ∙ e ∙ written-cons k' v' d') in
    let (values, rest) = nul_split v v' (written d) (written d') hv hv' behind in
    let same = written-injective d d' h h' rest in cc

insert_sorted-AreClean :
    (e : Text × Text) (d : Dict Text)
    → HasNoNul e.0 × HasNoNul e.1
    → AreClean d
    → AreClean (insert_sorted e d)
unfolding insert_sorted
insert_sorted-AreClean e [] h hs = (h, tt)
insert_sorted-AreClean e (f ∷ d) h (k, ks) = elim (Bool-cases (text_leb e.0 f.0)) [
  | inl first ↦ rw first (h, (k, ks))
  | inr later ↦ rw later (k, insert_sorted-AreClean e d h ks)
]

key_values-AreClean : (d : Dict Text) → AreClean d → AreClean (key_values d)
unfolding key_values
key_values-AreClean [] h = tt
key_values-AreClean (e ∷ d) (h, hs) =
    insert_sorted-AreClean e (key_values d) h (key_values-AreClean d hs)

lookup-insert_sorted :
    (j k v : Text) (d : Dict Text)
    → lookup k d ≡ none
    → lookup j (insert_sorted (k, v) d) ≡ (if k == j then some v else lookup j d)
unfolding lookup insert_sorted
lookup-insert_sorted j k v [] h = refl
lookup-insert_sorted j k v ((i, w) ∷ d) h = ground (arith, lookup-insert_sorted j k v d)

lookup-key_values : (k : Text) (d : Dict Text) → NodupKeys d → lookup k (key_values d) ≡ lookup k d
unfolding lookup key_values
lookup-key_values k [] h = refl
lookup-key_values k ((j, v) ∷ d) (fresh, h) =
    let found = lookup-key_values k d h in
    lookup-insert_sorted k j v (key_values d) (lookup-key_values j d h ∙ fresh)
    ∙ ap (λ o. if j == k then some v else o) found

-- Resource attributes with the same attributeKey are the same map: every key has the same value,
-- or none, in both. No key stands twice in a map, and no key and no value holds a zero byte.
pub attribute_key-injective :
    (d d' : Dict Text) (k : Text)
    → NodupKeys d
    → NodupKeys d'
    → AreClean d
    → AreClean d'
    → attribute_key d ≡ attribute_key d'
    → lookup k d ≡ lookup k d'
unfolding attribute_key
attribute_key-injective d d' k u u' h h' e =
    sym (lookup-key_values k d u)
    ∙ ap (lookup k) (
        written-injective (key_values d) (key_values d') (key_values-AreClean d h)
          (key_values-AreClean d' h') e)
    ∙ lookup-key_values k d' u'
