-- ===== src/Tailer/Lines/Laws.antt =====
-- internal/tailer/tailer.go, `truncateRunes` and the text of a line.
use log_collector.Base.{
  ℕ, suc, ◌-◌, ◌*◌, ◌≤◌, ◌<◌, ◌≡◌, ◌≢◌, refl, ap, sym, ◌∙◌, ◌⊎◌, inl, inr, [], ◌∷◌, ◌++◌, arith,
  ltb, ◌==◌, nat_eq, text_eq, length, take, drop, All, All-take, take_all, take-append_le,
  take-append-drop, length-append, length-take, drop-append_length, ne_of_eq_false, snoc-injective,
  subst, Bool-cases, ==→≡,
}
use log_collector.Base.Text.{Text, trim_suffix}
use log_collector.Utf8.{runes, encode}
use log_collector.Utf8.Laws.{runes-encode, runes-is_scalar}
use log_collector.Utf8.Prefix.{runes_from-append_ascii, take-runes_from-take, length-le-runes_from}
use log_collector.Tailer.Lines.{truncate_runes, newline, carriage_return, finish}

truncate_runes-take : (s : Text) (n : ℕ) → truncate_runes s n ≡ encode (take n (runes s))
unfolding truncate_runes
truncate_runes-take s n = elim (Bool-cases (ltb n (length (runes s)))) [
  | inl more ↦ rw more refl
  | inr fits ↦ rw (fits, take_all n (runes s) (ground arith)) refl
]

-- The runes of a truncated text are the first limit runes of the text, so it holds at most limit
-- of them.
pub runes-truncate_runes :
    (s : Text) (limit : ℕ) → runes (truncate_runes s limit) ≡ take limit (runes s)
runes-truncate_runes s limit =
    ap runes (truncate_runes-take s limit)
    ∙ runes-encode (take limit (runes s)) (All-take _ limit (runes s) (runes-is_scalar s))

truncate_runes_same :
    (s t : Text) (n : ℕ)
    → take n (runes s) ≡ take n (runes t)
    → truncate_runes s n ≡ truncate_runes t n
truncate_runes_same s t n e = truncate_runes-take s n ∙ ap encode e ∙ sym (truncate_runes-take t n)

-- A prefix of four bytes a rune loses nothing.
pub truncate_runes-take_bytes :
    (s : Text) (n : ℕ) → truncate_runes (take (n * 4) s) n ≡ truncate_runes s n
unfolding runes
truncate_runes-take_bytes s n =
    truncate_runes_same _ s n (take-runes_from-take n 0 (n * 4) s (omega arith))

-- The last byte of a long text does not matter either, if it is ASCII.
truncate_runes-snoc :
    (p : Text) (c n : ℕ)
    → c < 0x80
    → n * 4 ≤ suc (length p)
    → truncate_runes p n ≡ truncate_runes (p ++ c ∷ []) n
unfolding runes
truncate_runes-snoc p c n h k = truncate_runes_same p (p ++ c ∷ []) n (
    sym (
      ap (take n) (runes_from-append_ascii 0 p c [] h (omega arith))
      ∙ take-append_le n (runes p) _ (omega (arith, length-le-runes_from 0 p))))

drop_last : (p : Text) (c : ℕ) → drop (length (p ++ c ∷ []) - 1) (p ++ c ∷ []) ≡ c ∷ []
drop_last p c =
    let e : length (p ++ c ∷ []) - 1 ≡ length p = omega (arith, length-append p (c ∷ [])) in
    rw e (drop-append_length p (c ∷ []))

-- What `strings.TrimSuffix` of one byte does.
trim_suffix-cases :
    (s : Text) (c : ℕ)
    → ((p : Text) × (s ≡ p ++ c ∷ []) × (trim_suffix s (c ∷ []) ≡ p))
      ⊎ ((trim_suffix s (c ∷ []) ≡ s) × ((p : Text) → s ≢ p ++ c ∷ []))
unfolding trim_suffix
trim_suffix-cases s c = elim (Bool-cases (drop (length s - 1) s == (c ∷ []))) [
  | inl ends ↦ inl (
    take (length s - 1) s,
    sym (take-append-drop (length s - 1) s) ∙ ap (◌++◌ (take (length s - 1) s)) (==→≡ _ _ ends),
    rw ends refl,
  )
  | inr differs ↦ inr (
    rw differs refl,
    λ p e. ne_of_eq_false differs (ap (λ t. drop (length t - 1) t) e ∙ drop_last p c),
  )
]

trim_suffix-snoc : (p : Text) (c : ℕ) → trim_suffix (p ++ c ∷ []) (c ∷ []) ≡ p
trim_suffix-snoc p c = elim (trim_suffix-cases (p ++ c ∷ []) c) [
  | inl (q, e, t) ↦ t ∙ sym (snoc-injective p q c e)
  | inr (t, never) ↦ absurd (never p refl)
]

abbrev pub NoNewline : Text → Type 0
NoNewline = All (λ c. c ≢ newline)

NoNewline-snoc : (p : Text) → NoNewline (p ++ newline ∷ []) → ⊥
NoNewline-snoc [] h = h.0 refl
NoNewline-snoc (c ∷ p) h = NoNewline-snoc p h.1

trim_newline : (s : Text) → NoNewline s → trim_suffix s (newline ∷ []) ≡ s
trim_newline s h = elim (trim_suffix-cases s newline) [
  | inl (p, e, t) ↦ absurd (NoNewline-snoc p (subst NoNewline e h))
  | inr (t, never) ↦ t
]

abbrev pub trim_return : Text → Text
trim_return s = trim_suffix s (carriage_return ∷ [])

-- In a long text the final carriage return stands behind the runes that are kept.
truncate_runes-trim_return :
    (s : Text) (n : ℕ) → n * 4 ≤ length s → truncate_runes (trim_return s) n ≡ truncate_runes s n
truncate_runes-trim_return s n h = elim (trim_suffix-cases s carriage_return) [
  | inl (p, e, t) ↦
      ap (λ u. truncate_runes u n) t
      ∙ truncate_runes-snoc p carriage_return n (omega arith)
          (omega (arith, ap length e, length-append p (carriage_return ∷ [])))
      ∙ sym (ap (λ u. truncate_runes u n) e)
  | inr (t, never) ↦ ap (λ u. truncate_runes u n) t
]

-- Keeping four bytes a rune of a line gives what the whole line would.
pub finish-take :
    (body : Text) (n : ℕ)
    → NoNewline body
    → finish (take (n * 4) (body ++ newline ∷ [])) n ≡ truncate_runes (trim_return body) n
unfolding finish
finish-take body n h = elim (Bool-cases (ltb (length body) (n * 4))) [
  | inl short ↦
      ap (λ t. truncate_runes (trim_return (trim_suffix t (newline ∷ []))) n)
        (take_all (n * 4) (body ++ newline ∷ [])
          (ground (arith, length-append body (newline ∷ []))))
      ∙ ap (λ t. truncate_runes (trim_return t) n) (trim_suffix-snoc body newline)
  | inr long ↦
      ap (λ t. truncate_runes (trim_return (trim_suffix t (newline ∷ []))) n)
        (take-append_le (n * 4) body (newline ∷ []) (ground arith))
      ∙ ap (λ t. truncate_runes (trim_return t) n)
          (trim_newline (take (n * 4) body) (All-take _ (n * 4) body h))
      ∙ truncate_runes-trim_return (take (n * 4) body) n (ground (arith, length-take (n * 4) body))
      ∙ truncate_runes-take_bytes body n
      ∙ sym (truncate_runes-trim_return body n (ground arith))
]
