-- ===== src/Base/Decimal.antt =====
-- `strconv.FormatUint(n, 10)`.
use log_collector.Base.Lists.{All}
use log_collector.Base.Text.{Text}
use Prim.Native.Nat.{ℕ, zero, suc, ◌+◌, ◌-◌, ◌*◌, ◌/◌, ◌%◌, ◌≤◌, ◌<◌}
use mathlib.Core.Path.{◌≡◌, ap, sym, ◌∙◌}
use mathlib.Core.List.{[], ◌∷◌}
use log_collector.Base.Tests.{ltb, if◌then◌else◌, Bool-cases}
use mathlib.Core.Logic.{inl, inr}
use native.Mathlib.Omega.{arith}

-- The digits before `done`; the fuel bounds their number.
format_loop : ℕ → ℕ → Text → Text
format_loop zero n done = done
format_loop (suc fuel) n done =
    let rest = format_loop fuel (n / 10) ((b'0' + n % 10) ∷ done) in
    if ltb n 10 then (b'0' + n) ∷ done else rest

unfoldable pub format_uint : ℕ → Text
unfolding format_loop
format_uint n = format_loop (suc n) n []

-- The number that digits stand for, behind the digits of `acc`.
value_from : ℕ → Text → ℕ
value_from acc [] = acc
value_from acc (c ∷ s) = value_from (acc * 10 + (c - b'0')) s

pub value : Text → ℕ
value s = value_from 0 s

value-format_loop :
    (fuel n : ℕ) (done : Text)
    → n < fuel
    → value_from 0 (format_loop fuel n done) ≡ value_from n done
unfolding format_loop value_from
value-format_loop zero n done h = absurd (omega arith)
value-format_loop (suc fuel) n done h = elim (Bool-cases (ltb n 10)) [
  | inl small ↦ rw small (ap (λ (k : ℕ). value_from k done) (omega arith))
  | inr large ↦ rw large (
      value-format_loop fuel (n / 10) ((b'0' + n % 10) ∷ done) (ground arith)
      ∙ ap (λ (k : ℕ). value_from k done) (omega arith))
]

-- The digits determine the number.
pub value-format_uint : (n : ℕ) → value (format_uint n) ≡ n
unfolding value format_uint value_from
value-format_uint n = value-format_loop (suc n) n [] (omega arith)

pub format_uint-injective : (n m : ℕ) → format_uint n ≡ format_uint m → n ≡ m
format_uint-injective n m e = sym (value-format_uint n) ∙ ap value e ∙ value-format_uint m

abbrev pub IsDigit : ℕ → Type 0
IsDigit c = (b'0' ≤ c) × (c ≤ b'9')

format_loop-IsDigit :
    (fuel n : ℕ) (done : Text) → All IsDigit done → All IsDigit (format_loop fuel n done)
unfolding format_loop
format_loop-IsDigit zero n done h = h
format_loop-IsDigit (suc fuel) n done h = elim (Bool-cases (ltb n 10)) [
  | inl small ↦ rw small (ground arith, h)
  | inr large ↦ rw large (format_loop-IsDigit fuel (n / 10) _ (omega arith, h))
]

pub format_uint-IsDigit : (n : ℕ) → All IsDigit (format_uint n)
unfolding format_uint
format_uint-IsDigit n = format_loop-IsDigit (suc n) n [] tt
