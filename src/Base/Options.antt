-- ===== src/Base/Options.antt =====
-- Chains of steps that may fail.
use mathlib.Core.Option.{Option, none, some}
use mathlib.Core.List.{List, [], ◌∷◌}

infixl 5 ◌>>=◌
abbrev pub ◌>>=◌ {ℓ κ} : {A : Type ℓ} {B : Type κ} → Option A → (A → Option B) → Option B
none >>= f = none
some a >>= f = f a

-- The step for each member, in order, up to the first failure.
abbrev pub map_option {ℓ κ} : {A : Type ℓ} {B : Type κ} → (A → Option B) → List A → Option (List B)
map_option f [] = some []
map_option f (x ∷ xs) = f x >>= (λ y. map_option f xs >>= (λ ys. some (y ∷ ys)))
