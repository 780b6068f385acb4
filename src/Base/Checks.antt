-- ===== src/Base/Checks.antt =====
-- Chains of checks: an error, or none, and the next check.
use mathlib.Core.Path.{◌≡◌, refl}
use mathlib.Core.Logic.{◌↔◌}
use mathlib.Core.Bool.{Bool, true, false}
use mathlib.Core.Option.{Option, none, some}
use mathlib.Core.List.{List, [], ◌∷◌}
use log_collector.Base.Lists.{All}

infixr 5 ◌>>◌
abbrev pub ◌>>◌ {ℓ} : {E : Type ℓ} → Option E → Option E → Option E
none >> k = k
some e >> k = some e

abbrev pub reject {ℓ} : {E : Type ℓ} → Bool → E → Option E
reject true e = some e
reject false e = none

-- The first error of a list.
abbrev pub check_all {ℓ κ} : {A : Type ℓ} {E : Type κ} → (A → Option E) → List A → Option E
check_all check [] = none
check_all check (x ∷ xs) = check x >> check_all check xs

pub >>-none {ℓ} : {E : Type ℓ} (a b : Option E) → (a >> b ≡ none) ↔ ((a ≡ none) × (b ≡ none))
>>-none none b = ((λ e. (refl, e)), (λ (p, q). q))
>>-none (some x) b = ((λ e. cc), (λ (p, q). cc))

pub reject-none {ℓ} : {E : Type ℓ} (b : Bool) (e : E) → (reject b e ≡ none) ↔ (b ≡ false)
reject-none true e = ((λ h. cc), (λ h. cc))
reject-none false e = ((λ h. refl), (λ h. refl))

pub check_all-none {ℓ κ} :
    {A : Type ℓ} {E : Type κ} (check : A → Option E) (xs : List A)
    → (check_all check xs ≡ none) ↔ All (λ x. check x ≡ none) xs
check_all-none check [] = ((λ e. tt), (λ h. refl))
check_all-none check (x ∷ xs) =
    let (to, from) = >>-none (check x) (check_all check xs) in
    let (into, back) = check_all-none check xs in
    ((λ e. ((to e).0, into (to e).1)), (λ (h, hs). from (h, back hs)))

-- Equivalence, composed.
pub ↔-trans {ℓ κ μ} : {A : Type ℓ} {B : Type κ} {C : Type μ} → A ↔ B → B ↔ C → A ↔ C
↔-trans f g = ((λ a. g.0 (f.0 a)), (λ c. f.1 (g.1 c)))

pub ↔-pair {ℓ κ μ ν} :
    {A : Type ℓ} {B : Type κ} {C : Type μ} {D : Type ν} → A ↔ B → C ↔ D → (A × C) ↔ (B × D)
↔-pair f g = ((λ (a, c). (f.0 a, g.0 c)), (λ (b, d). (f.1 b, g.1 d)))

-- A pair, which `both` builds up.
infixr 4 ◌and◌
abbrev pub ◌and◌ {ℓ} : Type ℓ → Type ℓ → Type ℓ
A and B = A × B

-- Two checks, each with its meaning.
pub both {ℓ κ μ} :
    {E : Type ℓ} {A : Type κ} {B : Type μ} {a b : Option E}
    → (a ≡ none) ↔ A
    → (b ≡ none) ↔ B
    → (a >> b ≡ none) ↔ (A × B)
both {a} {b} f g = ↔-trans (>>-none a b) (↔-pair f g)

pub each {ℓ κ μ} :
    {A : Type ℓ} {E : Type κ} {P : A → Type μ} (check : A → Option E) (xs : List A)
    → ((x : A) → (check x ≡ none) ↔ P x)
    → (check_all check xs ≡ none) ↔ All P xs
each check [] f = ((λ h. tt), (λ h. refl))
each check (x ∷ xs) f = both (f x) (each check xs f)
