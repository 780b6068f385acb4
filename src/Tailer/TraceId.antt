-- ===== src/Tailer/TraceId.antt =====
-- internal/tailer/tailer.go: `parseTraceID`. The nil slice is the empty one.
use log_collector.Base.{
  ℕ, ◌+◌, ◌-◌, ◌*◌, ◌/◌, ◌%◌, ◌<◌, ◌≡◌, refl, ap, ◌∙◌, sym, Bool, true, false, not, ◌&&◌, Option,
  none, some, [], ◌∷◌, ◌++◌, leb, ltb, ◌==◌, nat_eq, length, any, All, All-append, if◌then◌else◌,
  arith, ==→≡, ≡→==, Bool-cases, Option-cases, inl, inr, ◌⊎◌, replicate, ℕ_discrete,
}
use log_collector.Base.Text.{Text}

-- The value of a hexadecimal digit.
unfoldable pub hex_digit : ℕ → Option ℕ
hex_digit c =
    if leb b'0' c && leb c b'9'
    then some (c - b'0')
    else if leb b'a' c && leb c b'f'
    then some (c - b'a' + 10)
    else if leb b'A' c && leb c b'F'
    then some (c - b'A' + 10)
    else none

hex_pair : Option ℕ → Option ℕ → Option Text → Option Text
hex_pair (some h) (some l) (some rest) = some ((h * 16 + l) ∷ rest)
hex_pair _ _ _ = none

-- `hex.DecodeString`; `none` is an error.
unfoldable pub decode_hex : Text → Option Text
unfolding hex_digit hex_pair
decode_hex [] = some []
decode_hex (c ∷ []) = none
decode_hex (c ∷ d ∷ s) = hex_pair (hex_digit c) (hex_digit d) (decode_hex s)

-- The loop that looks for a byte other than 0.
abbrev nonzero_or_nil : Text → Text
nonzero_or_nil id = if any (λ b. not (b == 0)) id then id else []

-- A value of 16 digits is filled up with zeros.
unfoldable pub pad : Text → Text
pad value = if length value == 16 then replicate 16 b'0' ++ value else value

-- The rest of the function, on the filled value.
unfoldable pub complete_id : Text → Text
complete_id padded =
    if length padded == 32
    then elim (decode_hex padded) [ none ↦ [] | some id ↦ nonzero_or_nil id ]
    else []

-- `parseTraceID`
unfoldable pub parse_trace_id : Text → Bool → Text
unfolding pad complete_id
parse_trace_id value false = value
parse_trace_id value true = complete_id (pad value)

-- The lower-case digits of bytes.
hex_char : ℕ → ℕ
hex_char n = if ltb n 10 then b'0' + n else b'a' + (n - 10)

pub encode_hex : Text → Text
encode_hex [] = []
encode_hex (b ∷ s) = hex_char (b / 16) ∷ hex_char (b % 16) ∷ encode_hex s

hex_digit-hex_char : (n : ℕ) → n < 16 → hex_digit (hex_char n) ≡ some n
unfolding hex_digit hex_char
hex_digit-hex_char n h = ground arith

decode-encode_hex : (s : Text) → All (λ b. b < 256) s → decode_hex (encode_hex s) ≡ some s
unfolding decode_hex encode_hex
decode-encode_hex [] h = refl
decode-encode_hex (b ∷ s) (h, k) =
    rw
      (
        hex_digit-hex_char (b / 16) (omega arith),
        hex_digit-hex_char (b % 16) (omega arith),
        decode-encode_hex s k,
      )
      (ap (λ (n : ℕ). some (n ∷ s)) (omega arith))

length-decode_hex : (s id : Text) → decode_hex s ≡ some id → length s ≡ 2 * length id
unfolding decode_hex
length-decode_hex [] id e = ground arith
length-decode_hex (c ∷ []) id e = cc
length-decode_hex (c ∷ d ∷ s) id e = elim (Option-cases (decode_hex s)) [
  | inl f ↦ ground arith
  | inr (r, f) ↦ ground (arith, length-decode_hex s r f)
]

abbrev pub has_nonzero : Text → Bool
has_nonzero = any (λ b. not (b == 0))

complete_id-some :
    (padded id : Text)
    → length padded ≡ 32
    → decode_hex padded ≡ some id
    → has_nonzero id ≡ true
    → complete_id padded ≡ id
unfolding complete_id
complete_id-some padded id long e nonzero =
    rw (≡→== {a = length padded} {b = 32} long, e, nonzero) refl

complete_id-IsValid :
    (padded : Text)
    → (complete_id padded ≡ [])
      ⊎ ((length (complete_id padded) ≡ 16) × (has_nonzero (complete_id padded) ≡ true))
unfolding complete_id
complete_id-IsValid padded = elim (Bool-cases (length padded == 32)) [
  | inr short ↦ inl (rw (short, complete_id) refl)
  | inl long ↦ elim (Option-cases (decode_hex padded)) [
    | inl e ↦ inl (rw (long, e, complete_id) refl)
    | inr (id, e) ↦ elim (Bool-cases (has_nonzero id)) [
      | inr zeros ↦ inl (rw (long, e, zeros, complete_id) refl)
      | inl nonzero ↦
          let long' : length padded ≡ 32 = ==→≡ _ _ long in
          let same = complete_id-some padded id long' e nonzero in
          inr (
            ap length same ∙ omega (arith, length-decode_hex padded id e),
            ap has_nonzero same ∙ nonzero,
          )
    ]
  ]
]

-- With completion, a trace id is nil or 16 bytes that are not all 0, as OTLP wants it.
pub parse_trace_id-IsValid :
    (value : Text)
    → (parse_trace_id value true ≡ [])
      ⊎ ((length (parse_trace_id value true) ≡ 16)
          × (has_nonzero (parse_trace_id value true) ≡ true))
unfolding parse_trace_id
parse_trace_id-IsValid value = complete_id-IsValid (pad value)

length-encode_hex : (s : Text) → length (encode_hex s) ≡ 2 * length s
unfolding encode_hex
length-encode_hex [] = refl
length-encode_hex (b ∷ s) = omega (arith, length-encode_hex s)

pad_full : (value : Text) → length value ≡ 32 → pad value ≡ value
unfolding pad
pad_full value e = ground arith

pad_half : (value : Text) → length value ≡ 16 → pad value ≡ replicate 16 b'0' ++ value
unfolding pad
pad_half value e = ground arith

complete_id-encode_hex :
    (id : Text)
    → All (λ b. b < 256) id
    → has_nonzero id ≡ true
    → length id ≡ 16
    → complete_id (encode_hex id) ≡ id
complete_id-encode_hex id small nonzero full =
    complete_id-some (encode_hex id) id (omega (arith, length-encode_hex id))
      (decode-encode_hex id small) nonzero

-- With completion, the hexadecimal text of 8 or 16 bytes that are not all 0 gives those bytes,
-- filled up with bytes 0 at the front to 16.
pub parse_trace_id-encode_hex :
    (id : Text)
    → All (λ b. b < 256) id
    → has_nonzero id ≡ true
    → (length id ≡ 8) ⊎ (length id ≡ 16)
    → parse_trace_id (encode_hex id) true ≡ replicate (16 - length id) 0 ++ id
unfolding parse_trace_id encode_hex hex_char ℕ_discrete
parse_trace_id-encode_hex id small nonzero (inr full) =
    ap complete_id (pad_full (encode_hex id) (omega (arith, length-encode_hex id)))
    ∙ complete_id-encode_hex id small nonzero full
    ∙ ap (λ n. replicate (16 - n) 0 ++ id) (sym full)
parse_trace_id-encode_hex id small nonzero (inl half) =
    ap complete_id (pad_half (encode_hex id) (omega (arith, length-encode_hex id)))
    ∙ complete_id-encode_hex (replicate 8 0 ++ id)
        (All-append _ (replicate 8 0) id (omega arith) small) nonzero (omega arith)
    ∙ ap (λ n. replicate (16 - n) 0 ++ id) (sym half)
