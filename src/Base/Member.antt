-- ===== src/Base/Member.antt =====
-- The Boolean search of a list, for types whose equality is decided.
use mathlib.Core.Path.{◌≡◌, refl, sym, subst}
use mathlib.Core.Logic.{◌⊎◌, ◌↔◌, inl, inr}
use mathlib.Core.Bool.{true}
use mathlib.Core.List.{List, [], ◌∷◌, ◌++◌}
use log_collector.Base.Tests.{Eq, ◌==◌, ==→≡, ≡→==, Bool-cases}
use log_collector.Base.Lists.{any, All, Elem, here, there}

module _ {ℓ} {A : Type ℓ} ⦃e : Eq A⦄ where
  pub any_sound : (a : A) (xs : List A) → any (λ x. x == a) xs ≡ true → Elem a xs
  any_sound a [] e = cc
  any_sound a (x ∷ xs) e = elim (Bool-cases (x == a)) [
    | inl same ↦ here (sym (==→≡ _ _ same))
    | inr other ↦ there (any_sound a xs (rw other at e))
  ]

  pub any_complete : (a : A) (xs : List A) → Elem a xs → any (λ x. x == a) xs ≡ true
  any_complete a [] m = elim m [ ]
  any_complete a (x ∷ xs) (here e) = rw (≡→== (sym e)) refl
  any_complete a (x ∷ xs) (there m) = elim (Bool-cases (x == a)) [
    | inl same ↦ rw same refl
    | inr other ↦ rw other (any_complete a xs m)
  ]

pub append-Elem {ℓ} :
    {A : Type ℓ} (a : A) (xs ys : List A) → Elem a (xs ++ ys) ↔ (Elem a xs ⊎ Elem a ys)
append-Elem a [] ys = ((λ m. inr m), (λ h. elim h [ inl m ↦ elim m [ ] | inr m ↦ m ]))
append-Elem a (x ∷ xs) ys =
    let (to, from) = append-Elem a xs ys in
    (
      (λ m. elim m [
        | here e ↦ inl (here e)
        | there n ↦ elim (to n) [ inl l ↦ inl (there l) | inr r ↦ inr r ]
      ]),
      (λ h. elim h [
        | inl m ↦ elim m [ here e ↦ here e | there n ↦ there (from (inl n)) ]
        | inr n ↦ there (from (inr n))
      ]),
    )

pub All-Elem {ℓ κ} :
    {A : Type ℓ} (P : A → Type κ) {a : A} {xs : List A} → All P xs → Elem a xs → P a
All-Elem P {xs = []} h m = elim m [ ]
All-Elem P {xs = x ∷ xs} (p, h) (here e) = subst P (sym e) p
All-Elem P {xs = x ∷ xs} (p, h) (there m) = All-Elem P h m
