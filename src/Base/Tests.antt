-- ===== src/Base/Tests.antt =====
-- Boolean tests, the conditional, and equality tests for every type whose equality is decided.
use Prim.Native.Nat.{ℕ, compare, Ordering}
use mathlib.Core.Path.{◌≡◌, refl}
use mathlib.Core.Logic.{◌⊎◌, inl, inr, ite}
use mathlib.Core.Bool.{Bool, true, false}
use mathlib.Core.Option.{Option, none, some}
use mathlib.Core.List.{List, [], ◌∷◌}
use native.Mathlib.Decide.{ℕ_discrete}
use native.Mathlib.Omega.{arith}

abbrev pub ltb : ℕ → ℕ → Bool
ltb a b = elim (compare a b) [ Ordering.lt ↦ true | _ ↦ false ]

abbrev pub leb : ℕ → ℕ → Bool
leb a b = elim (compare a b) [ Ordering.gt ↦ false | _ ↦ true ]

infix 1 if◌then◌else◌
abbrev pub if◌then◌else◌ {ℓ} : {A : Type ℓ} → Bool → A → A → A
if true then x else y = x
if false then x else y = y

pub Bool-cases : (b : Bool) → (b ≡ true) ⊎ (b ≡ false)
Bool-cases true = inl refl
Bool-cases false = inr refl

pub Option-cases {ℓ} : {A : Type ℓ} (o : Option A) → (o ≡ none) ⊎ ((a : A) × (o ≡ some a))
Option-cases none = inl refl
Option-cases (some a) = inr (a, refl)

pub record Eq {ℓ} (A : Type ℓ) : Type ℓ where
  pub dec : Discrete A

infix 50 ◌==◌
abbrev pub ◌==◌ {ℓ} : {A : Type ℓ} ⦃e : Eq A⦄ → A → A → Bool
◌==◌ ⦃e⦄ a b = ite (e.dec a b) true false

instance abbrev pub nat_eq : Eq ℕ
nat_eq = record { dec = ℕ_discrete }

cons_head {ℓ} : {A : Type ℓ} → A → List A → A
cons_head d [] = d
cons_head d (x ∷ xs) = x

cons_tail {ℓ} : {A : Type ℓ} → List A → List A
cons_tail [] = []
cons_tail (x ∷ xs) = xs

unfoldable pub list_dec {ℓ} : {A : Type ℓ} → Discrete A → Discrete (List A)
list_dec d [] [] = yes refl
list_dec d [] (y ∷ ys) = no (λ e. cc)
list_dec d (x ∷ xs) [] = no (λ e. cc)
list_dec d (x ∷ xs) (y ∷ ys) = elim (d x y) [
  | yes p ↦ elim (list_dec d xs ys) [ yes q ↦ yes (cc) | no q ↦ no (λ e. q (cc)) ]
  | no p ↦ no (λ e. p (cc))
]

-- Shut in proofs, where a split on `s == t` yields the equation or its negation.
instance unfoldable pub text_eq : Eq (List ℕ)
unfolding list_dec ℕ_discrete
text_eq = record { dec = list_dec ℕ_discrete }

pub ==_refl {ℓ} : {A : Type ℓ} ⦃e : Eq A⦄ (a : A) → (a == a) ≡ true
==_refl a = ground arith

pub ==→≡ {ℓ} : {A : Type ℓ} ⦃e : Eq A⦄ (a b : A) → (a == b) ≡ true → a ≡ b
==→≡ a b h = ground arith

pub ne_of_eq_false {ℓ} : {A : Type ℓ} ⦃e : Eq A⦄ {a b : A} → (a == b) ≡ false → ¬ (a ≡ b)
ne_of_eq_false {a} {b} h p = ground arith

pub ≡→== {ℓ} : {A : Type ℓ} ⦃e : Eq A⦄ {a b : A} → a ≡ b → (a == b) ≡ true
≡→== {a} {b} p = ground arith
