-- ===== src/Webhook/Utf8.antt =====
-- internal/webhook/wechat.go, `escape` and the lines of a body, on texts that are valid UTF-8.
use log_collector.Base.{
  ℕ, ◌≤◌, ◌<◌, ◌≡◌, refl, ap, sym, ◌∙◌, inl, inr, Bool, true, false, List, [], ◌∷◌, ◌++◌, ◌==◌,
  nat_eq, All, All-append, All-take, ltb, take, arith, append_assoc, append-nil, Bool-cases, subst,
  if◌then◌else◌,
}
use log_collector.Base.Text.{Text, encode_rune, is_scalar, split, cons_part}
use log_collector.Utf8.{runes, encode, IsUtf8}
use log_collector.Utf8.Laws.{runes-encode, runes-is_scalar}
use log_collector.Webhook.{is_special, escape}

encode-append : (xs ys : List ℕ) → encode (xs ++ ys) ≡ encode xs ++ encode ys
unfolding encode
encode-append [] ys = refl
encode-append (x ∷ xs) ys =
    ap (λ t. encode_rune x ++ t) (encode-append xs ys)
    ∙ sym (append_assoc (encode_rune x) (encode xs) (encode ys))

pub encode-IsUtf8 : (rs : List ℕ) → All (λ r. is_scalar r ≡ true) rs → IsUtf8 (encode rs)
encode-IsUtf8 rs h = ap encode (runes-encode rs h)

pub runes-append : (a b : Text) → IsUtf8 a → IsUtf8 b → runes (a ++ b) ≡ runes a ++ runes b
runes-append a b h k =
    ap (λ t. runes (t ++ b)) (sym h)
    ∙ ap (λ t. runes (encode (runes a) ++ t)) (sym k)
    ∙ ap runes (sym (encode-append (runes a) (runes b)))
    ∙ runes-encode (runes a ++ runes b)
        (All-append _ (runes a) (runes b) (runes-is_scalar a) (runes-is_scalar b))

pub append-IsUtf8 : (a b : Text) → IsUtf8 a → IsUtf8 b → IsUtf8 (a ++ b)
append-IsUtf8 a b h k =
    ap encode (runes-append a b h k)
    ∙ encode-append (runes a) (runes b)
    ∙ ap (λ t. t ++ encode (runes b)) h
    ∙ ap (λ t. a ++ t) k

pub take-IsUtf8 : (n : ℕ) (s : Text) → IsUtf8 (encode (take n (runes s)))
take-IsUtf8 n s = encode-IsUtf8 (take n (runes s)) (All-take _ n (runes s) (runes-is_scalar s))

-- A rune's bytes are the rune, or none of them is ASCII.
encode_rune-high : (r : ℕ) → 0x80 ≤ r → All (λ b. 0x80 ≤ b) (encode_rune r)
unfolding encode_rune
encode_rune-high r h = ground arith

encode_rune-low : (r : ℕ) → r < 0x80 → encode_rune r ≡ r ∷ []
unfolding encode_rune
encode_rune-low r h = ground arith

escape-high : (a s : Text) → All (λ b. 0x80 ≤ b) a → escape (a ++ s) ≡ a ++ escape s
unfolding escape is_special
escape-high [] s h = refl
escape-high (c ∷ a) s (h, k) = ground (arith, escape-high a s k)

rune-IsUtf8 : (r : ℕ) → is_scalar r ≡ true → IsUtf8 (encode_rune r)
unfolding encode
rune-IsUtf8 r v = subst IsUtf8 (append-nil (encode_rune r)) (encode-IsUtf8 (r ∷ []) (v, tt))

pub byte-IsUtf8 : (r : ℕ) → r < 0x80 → IsUtf8 (r ∷ [])
byte-IsUtf8 r h = subst IsUtf8 (encode_rune-low r h) (rune-IsUtf8 r (ground arith))

pub nil-IsUtf8 : IsUtf8 []
unfolding encode runes
nil-IsUtf8 = refl

-- A byte that is ASCII, with a backslash or without, in front of a valid text.
escaped-IsUtf8 :
    (special : Bool) (c : ℕ) (s : Text)
    → c < 0x80
    → IsUtf8 s
    → IsUtf8 (if special then 0x5c ∷ c ∷ s else c ∷ s)
escaped-IsUtf8 true c s h k =
    append-IsUtf8 (0x5c ∷ []) (c ∷ s) (byte-IsUtf8 0x5c (omega arith))
      (append-IsUtf8 (c ∷ []) s (byte-IsUtf8 c h) k)
escaped-IsUtf8 false c s h k = append-IsUtf8 (c ∷ []) s (byte-IsUtf8 c h) k

escape-encode : (rs : List ℕ) → All (λ r. is_scalar r ≡ true) rs → IsUtf8 (escape (encode rs))
unfolding encode escape
escape-encode [] h = nil-IsUtf8
escape-encode (r ∷ rs) (v, h) = elim (Bool-cases (ltb r 0x80)) [
  | inl low ↦
      subst (λ t. IsUtf8 (escape (t ++ encode rs))) (sym (encode_rune-low r (ground arith)))
        (escaped-IsUtf8 (is_special r) r (escape (encode rs)) (ground arith) (escape-encode rs h))
  | inr high ↦
      subst IsUtf8
        (sym (escape-high (encode_rune r) (encode rs) (encode_rune-high r (ground arith))))
        (append-IsUtf8 (encode_rune r) (escape (encode rs)) (rune-IsUtf8 r v) (escape-encode rs h))
]

pub escape-IsUtf8 : (s : Text) → IsUtf8 s → IsUtf8 (escape s)
escape-IsUtf8 s h = subst (λ t. IsUtf8 (escape t)) h (escape-encode (runes s) (runes-is_scalar s))

-- A text without a separator in front of the first part.
glue : Text → List Text → List Text
glue [] ps = ps
glue (c ∷ a) ps = cons_part c (glue a ps)

split-high : (a s : Text) → All (λ b. 0x80 ≤ b) a → split 10 (a ++ s) ≡ glue a (split 10 s)
unfolding split glue
split-high [] s h = refl
split-high (c ∷ a) s (h, k) = ground (arith, split-high a s k)

glue_cons : (a p : Text) (ps : List Text) → glue a (p ∷ ps) ≡ (a ++ p) ∷ ps
unfolding glue cons_part
glue_cons [] p ps = refl
glue_cons (c ∷ a) p ps = rw (glue_cons a p ps) refl

glue_nil : (c : ℕ) (a : Text) → glue (c ∷ a) [] ≡ (c ∷ a) ∷ []
unfolding glue cons_part
glue_nil c [] = refl
glue_nil c (d ∷ a) = rw (glue_nil d a) refl

glue-IsUtf8 : (a : Text) (ps : List Text) → IsUtf8 a → All IsUtf8 ps → All IsUtf8 (glue a ps)
unfolding glue
glue-IsUtf8 [] [] h k = tt
glue-IsUtf8 (c ∷ a) [] h k = subst (All IsUtf8) (sym (glue_nil c a)) (h, tt)
glue-IsUtf8 a (p ∷ ps) h (k, l) =
    subst (All IsUtf8) (sym (glue_cons a p ps)) (append-IsUtf8 a p h k, l)

parts-IsUtf8 :
    (newline : Bool) (c : ℕ) (ps : List Text)
    → c < 0x80
    → All IsUtf8 ps
    → All IsUtf8 (if newline then [] ∷ ps else cons_part c ps)
unfolding glue
parts-IsUtf8 true c ps h k = (nil-IsUtf8, k)
parts-IsUtf8 false c ps h k = glue-IsUtf8 (c ∷ []) ps (byte-IsUtf8 c h) k

split-encode : (rs : List ℕ) → All (λ r. is_scalar r ≡ true) rs → All IsUtf8 (split 10 (encode rs))
unfolding encode split
split-encode [] h = (nil-IsUtf8, tt)
split-encode (r ∷ rs) (v, h) = elim (Bool-cases (ltb r 0x80)) [
  | inl low ↦
      subst (λ t. All IsUtf8 (split 10 (t ++ encode rs))) (sym (encode_rune-low r (ground arith)))
        (parts-IsUtf8 (r == 10) r (split 10 (encode rs)) (ground arith) (split-encode rs h))
  | inr high ↦
      subst (All IsUtf8)
        (sym (split-high (encode_rune r) (encode rs) (encode_rune-high r (ground arith))))
        (glue-IsUtf8 (encode_rune r) (split 10 (encode rs)) (rune-IsUtf8 r v) (split-encode rs h))
]

pub split-IsUtf8 : (s : Text) → IsUtf8 s → All IsUtf8 (split 10 s)
split-IsUtf8 s h =
    subst (λ t. All IsUtf8 (split 10 t)) h (split-encode (runes s) (runes-is_scalar s))
