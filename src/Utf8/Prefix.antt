-- ===== src/Utf8/Prefix.antt =====
-- Where a text is cut: how decoding a prefix relates to decoding the whole.
use log_collector.Base.{
  ℕ, zero, suc, ◌+◌, ◌*◌, ◌≤◌, ◌<◌, ◌≡◌, refl, ap, [], ◌∷◌, ◌++◌, arith, take, length,
}
use log_collector.Base.Text.{Text}
use log_collector.Utf8.{
  decode, decode_two, decode_three, decode_four, runes, runes_from, low_three, low_four,
}

-- A rune takes at most four bytes, and no more than there are.
decode_extra_le : (b : ℕ) (s : Text) → ((decode b s).1 ≤ 3) × ((decode b s).1 ≤ length s)
unfolding decode decode_two decode_three decode_four
decode_extra_le b [] = ground arith
decode_extra_le b (c ∷ []) = ground arith
decode_extra_le b (c ∷ d ∷ []) = ground arith
decode_extra_le b (c ∷ d ∷ e ∷ s) = ground arith

-- Four bytes decide a rune.
decode-take : (b k : ℕ) (s : Text) → decode b (take (suc (suc (suc k))) s) ≡ decode b s
unfolding decode decode_two decode_three decode_four
decode-take b k [] = refl
decode-take b k (c ∷ []) = refl
decode-take b k (c ∷ d ∷ []) = refl
decode-take b k (c ∷ d ∷ e ∷ s) = refl

low_three_pos : (b : ℕ) → 0x80 ≤ low_three b
unfolding low_three
low_three_pos b = ground arith

low_four_pos : (b : ℕ) → 0x80 ≤ low_four b
unfolding low_four
low_four_pos b = ground arith

-- An ASCII byte ends what stands before it, like the end of the text.
decode-append_ascii :
    (b : ℕ) (s : Text) (c : ℕ) (q : Text) → c < 0x80 → decode b (s ++ c ∷ q) ≡ decode b s
unfolding decode decode_two decode_three decode_four
decode-append_ascii b [] c [] h = ground (arith, low_three_pos b, low_four_pos b)
decode-append_ascii b [] c (d ∷ []) h = ground (arith, low_three_pos b, low_four_pos b)
decode-append_ascii b [] c (d ∷ e ∷ q) h = ground (arith, low_three_pos b, low_four_pos b)
decode-append_ascii b (x ∷ []) c [] h = ground arith
decode-append_ascii b (x ∷ []) c (d ∷ q) h = ground arith
decode-append_ascii b (x ∷ y ∷ []) c q h = ground arith
decode-append_ascii b (x ∷ y ∷ z ∷ s) c q h = refl

-- Decoding splits at an ASCII byte.
pub runes_from-append_ascii :
    (n : ℕ) (p : Text) (c : ℕ) (q : Text)
    → c < 0x80
    → n ≤ length p
    → runes_from n (p ++ c ∷ q) ≡ runes_from n p ++ runes_from 0 (c ∷ q)
unfolding runes_from
runes_from-append_ascii zero [] c q h k = refl
runes_from-append_ascii (suc n) [] c q h k = absurd (omega arith)
runes_from-append_ascii (suc n) (b ∷ p) c q h k = runes_from-append_ascii n p c q h (omega arith)
runes_from-append_ascii zero (b ∷ p) c q h k = rw (decode-append_ascii b p c q h) (
    ap (◌∷◌ (decode b p).0)
      (runes_from-append_ascii (decode b p).1 p c q h (decode_extra_le b p).1))

-- The first `n` runes lie in the first `4 * n` bytes.
pub take-runes_from-take :
    (n m k : ℕ) (s : Text)
    → m + 4 * n ≤ k
    → take n (runes_from m (take k s)) ≡ take n (runes_from m s)
unfolding runes_from
take-runes_from-take zero m k s h = refl
take-runes_from-take (suc n) m zero s h = absurd (omega arith)
take-runes_from-take (suc n) m (suc k) [] h = refl
take-runes_from-take (suc n) (suc m) (suc k) (b ∷ s) h =
    take-runes_from-take (suc n) m k s (omega arith)
take-runes_from-take (suc n) zero (suc zero) (b ∷ s) h = absurd (omega arith)
take-runes_from-take (suc n) zero (suc (suc zero)) (b ∷ s) h = absurd (omega arith)
take-runes_from-take (suc n) zero (suc (suc (suc zero))) (b ∷ s) h = absurd (omega arith)
take-runes_from-take (suc n) zero (suc (suc (suc (suc k)))) (b ∷ s) h = rw (decode-take b k s) (
    ap (◌∷◌ (decode b s).0) (
      take-runes_from-take n (decode b s).1 (suc (suc (suc k))) s
        (omega (arith, decode_extra_le b s))))

-- There are at least a quarter as many runes as bytes.
pub length-le-runes_from : (n : ℕ) (s : Text) → length s ≤ n + 4 * length (runes_from n s)
unfolding runes_from
length-le-runes_from n [] = omega arith
length-le-runes_from (suc n) (b ∷ s) = omega (arith, length-le-runes_from n s)
length-le-runes_from zero (b ∷ s) =
    omega (arith, length-le-runes_from (decode b s).1 s, decode_extra_le b s)

length-runes_from_le : (n : ℕ) (s : Text) → length (runes_from n s) ≤ length s
unfolding runes_from
length-runes_from_le n [] = omega arith
length-runes_from_le (suc n) (b ∷ s) = omega (arith, length-runes_from_le n s)
length-runes_from_le zero (b ∷ s) = omega (arith, length-runes_from_le (decode b s).1 s)

-- A text has no more runes than bytes.
pub length-runes_le : (s : Text) → length (runes s) ≤ length s
unfolding runes
length-runes_le s = length-runes_from_le 0 s
