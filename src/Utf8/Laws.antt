-- ===== src/Utf8/Laws.antt =====
-- What decoding keeps: runes survive encoding, and a text's first runes lie in its first bytes.
use log_collector.Base.{
  ℕ, zero, suc, ◌+◌, ◌-◌, ◌*◌, ◌/◌, ◌%◌, ◌≤◌, ◌<◌, ◌≡◌, refl, ap, true, List, [], ◌∷◌, ◌++◌, arith,
  ltb, All, ◌∙◌, ◌⊎◌, inl, inr, Bool-cases,
}
use log_collector.Base.Text.{Text, encode_rune, is_scalar}
use log_collector.Utf8.{
  decode, decode_two, decode_three, decode_four, runes_from, runes, encode, low_three, high_three,
  low_four, high_four,
}

decode-encode_one : (r : ℕ) (s : Text) → r < 0x80 → decode r s ≡ (r, 0)
unfolding decode
decode-encode_one r s h = ground arith

decode-encode_two :
    (r : ℕ) (s : Text)
    → 0x80 ≤ r
    → r < 0x800
    → decode (0xc0 + r / 64) ((0x80 + r % 64) ∷ s) ≡ (r, 1)
unfolding decode decode_two
decode-encode_two r s h k = ground arith

decode_three_lem :
    (lo hi b c d : ℕ) (s : Text)
    → lo ≤ c
    → c ≤ hi
    → 0x80 ≤ d
    → d ≤ 0xbf
    → decode_three lo hi b (c ∷ d ∷ s) ≡ ((b - 0xe0) * 4096 + (c - 0x80) * 64 + (d - 0x80), 2)
unfolding decode_three
decode_three_lem lo hi b c d s h k l m = ground arith

decode_four_lem :
    (lo hi b c d e : ℕ) (s : Text)
    → lo ≤ c
    → c ≤ hi
    → 0x80 ≤ d
    → d ≤ 0xbf
    → 0x80 ≤ e
    → e ≤ 0xbf
    → decode_four lo hi b (c ∷ d ∷ e ∷ s)
      ≡ ((b - 0xf0) * 262144 + (c - 0x80) * 4096 + (d - 0x80) * 64 + (e - 0x80), 3)
unfolding decode_four
decode_four_lem lo hi b c d e s h k l m n o = ground arith

decode-three :
    (b : ℕ) (s : Text)
    → 0xe0 ≤ b
    → b < 0xf0
    → decode b s ≡ decode_three (low_three b) (high_three b) b s
unfolding decode
decode-three b s h k = ground arith

decode-four :
    (b : ℕ) (s : Text)
    → 0xf0 ≤ b
    → b < 0xf5
    → decode b s ≡ decode_four (low_four b) (high_four b) b s
unfolding decode
decode-four b s h k = ground arith

is_scalar_cases : (r : ℕ) → is_scalar r ≡ true → (r < 0xd800) ⊎ ((0xe000 ≤ r) × (r ≤ 0x10ffff))
is_scalar_cases r h = ground arith

-- The second byte of a three-byte rune is in the range that decoding asks for.
three_bounds :
    (r : ℕ)
    → 0x800 ≤ r
    → r < 0x10000
    → is_scalar r ≡ true
    → (low_three (0xe0 + r / 4096) ≤ 0x80 + r / 64 % 64)
      × (0x80 + r / 64 % 64 ≤ high_three (0xe0 + r / 4096))
unfolding low_three high_three
three_bounds r h k v = ground (arith, is_scalar_cases r v)

four_bounds :
    (r : ℕ)
    → 0x10000 ≤ r
    → r ≤ 0x10ffff
    → (low_four (0xf0 + r / 262144) ≤ 0x80 + r / 4096 % 64)
      × (0x80 + r / 4096 % 64 ≤ high_four (0xf0 + r / 262144))
unfolding low_four high_four
four_bounds r h k = ground arith

decode-encode_three :
    (r : ℕ) (s : Text)
    → 0x800 ≤ r
    → r < 0x10000
    → is_scalar r ≡ true
    → decode (0xe0 + r / 4096) ((0x80 + r / 64 % 64) ∷ (0x80 + r % 64) ∷ s) ≡ (r, 2)
decode-encode_three r s h k v =
    let b : ℕ = 0xe0 + r / 4096 in
    let c : ℕ = 0x80 + r / 64 % 64 in
    let d : ℕ = 0x80 + r % 64 in
    let bounds = three_bounds r h k v in
    decode-three b (c ∷ d ∷ s) (omega arith) (omega arith)
    ∙ decode_three_lem (low_three b) (high_three b) b c d s bounds.0 bounds.1 (omega arith)
        (omega arith)
    ∙ ap (λ (n : ℕ). (n, 2)) (omega arith)

decode-encode_four :
    (r : ℕ) (s : Text)
    → 0x10000 ≤ r
    → r ≤ 0x10ffff
    → decode
        (0xf0 + r / 262144)
        ((0x80 + r / 4096 % 64) ∷ (0x80 + r / 64 % 64) ∷ (0x80 + r % 64) ∷ s)
      ≡ (r, 3)
decode-encode_four r s h k =
    let b : ℕ = 0xf0 + r / 262144 in
    let c : ℕ = 0x80 + r / 4096 % 64 in
    let d : ℕ = 0x80 + r / 64 % 64 in
    let e : ℕ = 0x80 + r % 64 in
    let bounds = four_bounds r h k in
    decode-four b (c ∷ d ∷ e ∷ s) (omega arith) (omega arith)
    ∙ decode_four_lem (low_four b) (high_four b) b c d e s bounds.0 bounds.1 (omega arith)
        (omega arith) (omega arith) (omega arith)
    ∙ ap (λ (n : ℕ). (n, 3)) (omega arith)

runes_from-cons :
    (b r n : ℕ) (s : Text) → decode b s ≡ (r, n) → runes_from 0 (b ∷ s) ≡ r ∷ runes_from n s
unfolding runes_from
runes_from-cons b r n s e = rw (e, runes_from)

-- Decoding what was encoded gives the rune back, whatever follows.
runes_from-encode_rune :
    (r : ℕ) (s : Text) → is_scalar r ≡ true → runes_from 0 (encode_rune r ++ s) ≡ r ∷ runes_from 0 s
unfolding encode_rune runes_from
runes_from-encode_rune r s h = elim (Bool-cases (ltb r 0x80)) [
  | inl one ↦ rw one (runes_from-cons r r 0 s (decode-encode_one r s (ground arith)))
  | inr large ↦ elim (Bool-cases (ltb r 0x800)) [
    | inl two ↦
        rw (large, two)
          (runes_from-cons (0xc0 + r / 64) r 1 ((0x80 + r % 64) ∷ s)
            (decode-encode_two r s (ground arith) (ground arith)))
    | inr larger ↦ elim (Bool-cases (ltb r 0x10000)) [
      | inl three ↦
          rw (large, larger, h, three)
            (runes_from-cons (0xe0 + r / 4096) r 2 ((0x80 + r / 64 % 64) ∷ (0x80 + r % 64) ∷ s)
              (decode-encode_three r s (ground arith) (ground arith) h))
      | inr four ↦
          rw (large, larger, h, four)
            (runes_from-cons (0xf0 + r / 262144) r 3
              ((0x80 + r / 4096 % 64) ∷ (0x80 + r / 64 % 64) ∷ (0x80 + r % 64) ∷ s)
              (decode-encode_four r s (ground arith) (ground arith)))
    ]
  ]
]

decode_two-is_scalar :
    (b : ℕ) (s : Text) → 0xc2 ≤ b → b < 0xe0 → is_scalar (decode_two b s).0 ≡ true
unfolding decode_two
decode_two-is_scalar b [] h k = refl
decode_two-is_scalar b (c ∷ s) h k = ground arith

decode_three-is_scalar :
    (b : ℕ) (s : Text)
    → 0xe0 ≤ b
    → b < 0xf0
    → is_scalar (decode_three (low_three b) (high_three b) b s).0 ≡ true
unfolding decode_three low_three high_three
decode_three-is_scalar b (c ∷ d ∷ s) h k = ground arith
decode_three-is_scalar b _ h k = refl

decode_four-is_scalar :
    (b : ℕ) (s : Text)
    → 0xf0 ≤ b
    → b < 0xf5
    → is_scalar (decode_four (low_four b) (high_four b) b s).0 ≡ true
unfolding decode_four low_four high_four
decode_four-is_scalar b (c ∷ d ∷ e ∷ s) h k = ground arith
decode_four-is_scalar b _ h k = refl

-- The rune that decoding yields is one that can be encoded.
decode-is_scalar : (b : ℕ) (s : Text) → is_scalar (decode b s).0 ≡ true
unfolding decode
decode-is_scalar b s =
    ground (arith, decode_two-is_scalar b s, decode_three-is_scalar b s, decode_four-is_scalar b s)

runes_from-is_scalar : (n : ℕ) (s : Text) → All (λ r. is_scalar r ≡ true) (runes_from n s)
unfolding runes_from
runes_from-is_scalar n [] = tt
runes_from-is_scalar (suc n) (b ∷ s) = runes_from-is_scalar n s
runes_from-is_scalar zero (b ∷ s) = (decode-is_scalar b s, runes_from-is_scalar (decode b s).1 s)

-- Whatever the bytes, decoding yields runes that can be encoded.
pub runes-is_scalar : (s : Text) → All (λ r. is_scalar r ≡ true) (runes s)
unfolding runes
runes-is_scalar s = runes_from-is_scalar 0 s

-- Strings made of valid runes keep their runes.
pub runes-encode : (rs : List ℕ) → All (λ r. is_scalar r ≡ true) rs → runes (encode rs) ≡ rs
unfolding runes encode
runes-encode [] h = refl
runes-encode (r ∷ rs) (v, h) =
    runes_from-encode_rune r (encode rs) v ∙ ap (◌∷◌ r) (runes-encode rs h)
