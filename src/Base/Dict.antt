-- ===== src/Base/Dict.antt =====
-- Go maps with string keys, as association lists. A map is ranged over in the list's order; what is
-- proved holds of every list, so of every order.
use mathlib.Core.Path.{◌≡◌, refl, sym, subst}
use mathlib.Core.Option.{Option, none, some}
use mathlib.Core.List.{List, [], ◌∷◌}
use mathlib.Core.Logic.{inl, inr}
use native.Mathlib.Omega.{arith}
use Prim.Native.Nat.{ℕ}
use log_collector.Base.Tests.{◌==◌, text_eq, if◌then◌else◌, Bool-cases, ==→≡}
use log_collector.Base.Lists.{All}

abbrev pub Dict {ℓ} : Type ℓ → Type ℓ
Dict V = List (List ℕ × V)

module _ {ℓ} {V : Type ℓ} where
  unfoldable pub lookup : List ℕ → Dict V → Option V
  lookup k [] = none
  lookup k ((j, v) ∷ d) = if j == k then some v else lookup k d

  -- `d[k] = v`
  unfoldable pub insert : List ℕ → V → Dict V → Dict V
  insert k v [] = (k, v) ∷ []
  insert k v ((j, w) ∷ d) = if j == k then (j, v) ∷ d else (j, w) ∷ insert k v d

  -- `delete(d, k)`
  unfoldable pub erase : List ℕ → Dict V → Dict V
  erase k [] = []
  erase k ((j, w) ∷ d) = let rest = erase k d in if j == k then rest else (j, w) ∷ rest

  abbrev pub NodupKeys : Dict V → Type ℓ
  NodupKeys [] = Unit
  NodupKeys ((k, v) ∷ d) = (lookup k d ≡ none) × NodupKeys d

module _ {ℓ} {V : Type ℓ} where
  pub lookup-insert :
      (j k : List ℕ) (v : V) (d : Dict V)
      → lookup j (insert k v d) ≡ (if k == j then some v else lookup j d)
  unfolding lookup insert
  lookup-insert j k v [] = refl
  lookup-insert j k v ((i, w) ∷ d) = ground (arith, lookup-insert j k v d)

  pub lookup-erase :
      (j k : List ℕ) (d : Dict V) → lookup j (erase k d) ≡ (if k == j then none else lookup j d)
  unfolding lookup erase
  lookup-erase j k [] = ground arith
  lookup-erase j k ((i, w) ∷ d) = ground (arith, lookup-erase j k d)

  pub insert-NodupKeys : (k : List ℕ) (v : V) (d : Dict V) → NodupKeys d → NodupKeys (insert k v d)
  unfolding insert lookup
  insert-NodupKeys k v [] h = (refl, tt)
  insert-NodupKeys k v ((i, w) ∷ d) (fresh, h) =
      ground (arith, insert-NodupKeys k v d h, lookup-insert i k v d)

  pub erase-NodupKeys : (k : List ℕ) (d : Dict V) → NodupKeys d → NodupKeys (erase k d)
  unfolding erase
  erase-NodupKeys k [] h = tt
  erase-NodupKeys k ((i, w) ∷ d) (fresh, h) =
      ground (arith, erase-NodupKeys k d h, lookup-erase i k d)

  pub insert-All :
      (P : List ℕ × V → Type ℓ) (k : List ℕ) (v : V) (d : Dict V)
      → P (k, v)
      → All P d
      → All P (insert k v d)
  unfolding insert
  insert-All P k v [] h hs = (h, tt)
  insert-All P k v ((i, w) ∷ d) h (p, hs) = elim (Bool-cases (i == k)) [
    | inl same ↦ rw same (subst (λ j. P (j, v)) (sym (==→≡ i k same)) h, hs)
    | inr other ↦ rw other (p, insert-All P k v d h hs)
  ]

  pub erase-All : (P : List ℕ × V → Type ℓ) (k : List ℕ) (d : Dict V) → All P d → All P (erase k d)
  unfolding erase
  erase-All P k [] hs = tt
  erase-All P k ((i, w) ∷ d) (p, hs) = elim (Bool-cases (i == k)) [
    | inl same ↦ rw same (erase-All P k d hs)
    | inr other ↦ rw other (p, erase-All P k d hs)
  ]
