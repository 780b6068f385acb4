-- ===== src/Tailer/Cri.antt =====
-- internal/tailer/tailer.go: `parseCRI`. `time.Parse` with RFC3339Nano is a parameter.
use log_collector.Base.{
  ℕ, suc, ◌≡◌, ◌≢◌, refl, ap, sym, ◌∙◌, ◌⊎◌, inl, inr, ◌↔◌, ◌&&◌, ◌||◌, Option, none, some, List,
  [], ◌∷◌, ◌++◌, ◌==◌, nat_eq, text_eq, subst, if◌then◌else◌, arith, All, Bool-cases, ==→≡,
  ne_of_eq_false,
}
use mathlib.Core.Path.{ap₂}
use log_collector.Base.Text.{Text, bytes, split_n}
use log_collector.Model.{Time}

abbrev pub space : ℕ
space = 32

-- The results of a successful call.
pub record Cri : Type 0 where
  pub body : Text
  pub timestamp : Time
  pub stream : Text
  pub flag : Text

unfoldable pub stdout : Text
unfolding bytes
stdout = bytes "stdout"

unfoldable pub stderr : Text
unfolding bytes
stderr = bytes "stderr"

unfoldable pub partial : Text
unfolding bytes
partial = bytes "P"

unfoldable pub full : Text
unfolding bytes
full = bytes "F"

module _ (parse_time : Text → Option Time) where
  unfoldable pub cri_fields : List Text → Option Cri
  cri_fields (stamp ∷ stream ∷ flag ∷ body ∷ []) =
      if (stream == stdout || stream == stderr) && (flag == partial || flag == full)
      then elim (parse_time stamp) [
        | none ↦ none
        | some ts ↦ some (record { body = body; timestamp = ts; stream = stream; flag = flag })
      ]
      else none
  cri_fields _ = none

  -- `parseCRI`
  unfoldable pub parse_cri : Text → Option Cri
  unfolding cri_fields
  parse_cri line = cri_fields (split_n space 3 line)

abbrev NoSpace : Text → Type 0
NoSpace = All (λ c. c ≢ space)

-- A part that holds no separator is split off.
split_n-append :
    (n : ℕ) (p s : Text)
    → NoSpace p
    → split_n space (suc n) (p ++ space ∷ s) ≡ p ∷ split_n space n s
unfolding split_n
split_n-append n [] s h = ground arith
split_n-append n (c ∷ p) s (h, k) = ground (arith, split_n-append n p s k)

one_ne_two : {a b c : Text} {l : List Text} → a ∷ [] ≡ b ∷ c ∷ l → ⊥
one_ne_two e = cc

cons_head : {a b : Text} {l m : List Text} → a ∷ l ≡ b ∷ m → a ≡ b
cons_head e = cc

cons_tail : {a b : Text} {l m : List Text} → a ∷ l ≡ b ∷ m → l ≡ m
cons_tail e = cc

-- A text has no separator, or the part before the first one is split off.
split_n-cases :
    (n : ℕ) (s : Text)
    → (split_n space (suc n) s ≡ s ∷ [])
      ⊎ ((p : Text) × (rest : Text) × NoSpace p
          × (s ≡ p ++ space ∷ rest)
          × (split_n space (suc n) s ≡ p ∷ split_n space n rest))
unfolding split_n
split_n-cases n [] = inl refl
split_n-cases n (c ∷ s) = elim (Bool-cases (c == space)) [
  | inl sep ↦ inr ([], s, tt, ap (λ x. x ∷ s) (==→≡ _ _ sep), rw sep refl)
  | inr other ↦ elim (split_n-cases n s) [
    | inl e ↦ inl (rw (other, e) refl)
    | inr (p, rest, h, split, e) ↦
        inr (c ∷ p, rest, (ne_of_eq_false other, h), ap (◌∷◌ c) split, rw (other, e) refl)
  ]
]

split_n-uncons :
    (n : ℕ) (s p q : Text) (qs : List Text)
    → split_n space (suc n) s ≡ p ∷ q ∷ qs
    → (rest : Text) × NoSpace p × (s ≡ p ++ space ∷ rest) × (split_n space n rest ≡ q ∷ qs)
split_n-uncons n s p q qs e = elim (split_n-cases n s) [
  | inl f ↦ absurd (one_ne_two (sym f ∙ e))
  | inr (p', rest, h, split, f) ↦
      let same : p' ≡ p = cons_head (sym f ∙ e) in
      (rest, subst NoSpace same h, split ∙ ap (λ x. x ++ space ∷ rest) same, cons_tail (sym f ∙ e))
]

split_n-last : (s t : Text) → split_n space 0 s ≡ t ∷ [] → s ≡ t
unfolding split_n
split_n-last s t e = cc

split_n-zero : (s : Text) → split_n space 0 s ≡ s ∷ []
unfolding split_n
split_n-zero s = refl

streams-NoSpace : {s : Text} → (s ≡ stdout) ⊎ (s ≡ stderr) → NoSpace s
unfolding stdout stderr
streams-NoSpace (inl e) = subst NoSpace (sym e) (omega arith)
streams-NoSpace (inr e) = subst NoSpace (sym e) (omega arith)

flags-NoSpace : {s : Text} → (s ≡ partial) ⊎ (s ≡ full) → NoSpace s
unfolding partial full
flags-NoSpace (inl e) = subst NoSpace (sym e) (omega arith)
flags-NoSpace (inr e) = subst NoSpace (sym e) (omega arith)

module _ (parse_time : Text → Option Time) where
  -- The form of a line that carries these fields, time stamp first.
  abbrev pub IsCriLine : Text → Text → Cri → Type 0
  IsCriLine line stamp c =
      NoSpace stamp
      × (line ≡ stamp ++ space ∷ (c.stream ++ space ∷ (c.flag ++ space ∷ c.body)))
      × (parse_time stamp ≡ some c.timestamp)
      × ((c.stream ≡ stdout) ⊎ (c.stream ≡ stderr))
      × ((c.flag ≡ partial) ⊎ (c.flag ≡ full))

  cri_fields_sound :
      (stamp stream flag body : Text) (c : Cri)
      → cri_fields parse_time (stamp ∷ stream ∷ flag ∷ body ∷ []) ≡ some c
      → (c.stream ≡ stream)
        × (c.flag ≡ flag)
        × (c.body ≡ body)
        × (parse_time stamp ≡ some c.timestamp)
        × ((c.stream ≡ stdout) ⊎ (c.stream ≡ stderr))
        × ((c.flag ≡ partial) ⊎ (c.flag ≡ full))
  unfolding cri_fields
  cri_fields_sound stamp stream flag body c e = ground arith

  cri_fields_four :
      (ps : List Text) (c : Cri)
      → cri_fields parse_time ps ≡ some c
      → (stamp : Text) × (stream : Text) × (flag : Text) × (body : Text) × (ps
          ≡ stamp ∷ stream ∷ flag ∷ body ∷ [])
  unfolding cri_fields
  cri_fields_four (stamp ∷ stream ∷ flag ∷ body ∷ []) c e = (stamp, stream, flag, body, refl)
  cri_fields_four _ c e = cc

  parse_cri_sound :
      (line : Text) (c : Cri)
      → parse_cri parse_time line ≡ some c
      → (stamp : Text) × IsCriLine line stamp c
  unfolding parse_cri
  parse_cri_sound line c e =
      let (stamp, stream, flag, body, four) = cri_fields_four (split_n space 3 line) c e in
      let (r1, h1, s1, f1) = split_n-uncons 2 line stamp stream _ four in
      let (r2, h2, s2, f2) = split_n-uncons 1 r1 stream flag _ f1 in
      let (r3, h3, s3, f3) = split_n-uncons 0 r2 flag body _ f2 in
      let last : r3 ≡ body = split_n-last r3 body f3 in
      let (same_stream, same_flag, same_body, stamped, streams, flags) =
        cri_fields_sound stamp stream flag body c (ap (cri_fields parse_time) (sym four) ∙ e) in
      let tail : r2 ≡ c.flag ++ space ∷ c.body =
        s3 ∙ ap₂ (λ x y. x ++ space ∷ y) (sym same_flag) (last ∙ sym same_body) in
      let rest : r1 ≡ c.stream ++ space ∷ (c.flag ++ space ∷ c.body) =
        s2 ∙ ap₂ (λ x y. x ++ space ∷ y) (sym same_stream) tail in
      (stamp, (h1, s1 ∙ ap (λ x. stamp ++ space ∷ x) rest, stamped, streams, flags))

  cri_fields_complete :
      (stamp : Text) (c : Cri)
      → parse_time stamp ≡ some c.timestamp
      → (c.stream ≡ stdout) ⊎ (c.stream ≡ stderr)
      → (c.flag ≡ partial) ⊎ (c.flag ≡ full)
      → cri_fields parse_time (stamp ∷ c.stream ∷ c.flag ∷ c.body ∷ []) ≡ some c
  unfolding cri_fields
  cri_fields_complete stamp c stamped streams flags = ground arith

  parse_cri_complete :
      (line stamp : Text) (c : Cri) → IsCriLine line stamp c → parse_cri parse_time line ≡ some c
  unfolding parse_cri
  parse_cri_complete line stamp c (h, split, stamped, streams, flags) =
      let parts : split_n space 3 line ≡ stamp ∷ c.stream ∷ c.flag ∷ c.body ∷ [] =
        ap (split_n space 3) split
        ∙ split_n-append 2 stamp _ h
        ∙ ap (◌∷◌ stamp) (
            split_n-append 1 c.stream _ (streams-NoSpace streams)
            ∙ ap (◌∷◌ c.stream) (
                split_n-append 0 c.flag c.body (flags-NoSpace flags)
                ∙ ap (◌∷◌ c.flag) (split_n-zero c.body))) in
      ap (cri_fields parse_time) parts ∙ cri_fields_complete stamp c stamped streams flags

-- parseCRI succeeds exactly on the lines <time> <stream> <flag> <body> with a time that parses, a
-- known stream and a known flag, and returns those fields; the body may hold spaces.
pub parse_cri_iff :
    (parse_time : Text → Option Time) (line : Text) (c : Cri)
    → (parse_cri parse_time line ≡ some c) ↔ ((stamp : Text) × IsCriLine parse_time line stamp c)
parse_cri_iff parse_time line c =
    (parse_cri_sound parse_time line c, λ (stamp, h). parse_cri_complete parse_time line stamp c h)
