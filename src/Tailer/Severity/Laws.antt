-- ===== src/Tailer/Severity/Laws.antt =====
-- internal/tailer/tailer.go, `parseSeverity`: the words of the pattern and their levels.
use log_collector.Base.{
  ℕ, suc, ◌≡◌, refl, ap, sym, ◌∙◌, ◌⊎◌, inl, inr, true, none, some, List, [], ◌∷◌, ◌++◌, ◌==◌,
  nat_eq, text_eq, length, take, arith, Bool-cases, Option-cases, All, Elem, here, there, subst,
  take-append_le, take_all,
}
use mathlib.Core.Option.{none-ne-some, some-injective}
use log_collector.Base.Text.{Text, bytes, to_upper, before}
use log_collector.Tailer.Severity.{
  newline, is_delimiter, ends, upper_byte, strip_fold, capture, capture_first, words,
  find_delimited, find_severity, classify, parse_severity,
}

no-Elem : {w : Text} → Elem w [] → ⊥
no-Elem e = elim e [ ]

nil_ne_snoc : (d : ℕ) (s pre : Text) → [] ≡ pre ++ d ∷ s → ⊥
nil_ne_snoc d s [] e = cc
nil_ne_snoc d s (c ∷ pre) e = cc

strip_fold-cases :
    (w s : Text)
    → (strip_fold w s ≡ none)
      ⊎ ((rest : Text) × (strip_fold w s ≡ some rest)
          × (s ≡ take (length w) s ++ rest)
          × (to_upper (take (length w) s) ≡ w))
unfolding strip_fold to_upper upper_byte
strip_fold-cases [] s = inr (s, refl, refl, refl)
strip_fold-cases (x ∷ w) [] = inl refl
strip_fold-cases (x ∷ w) (c ∷ s) = elim (strip_fold-cases w s) [
  | inl e ↦ inl (ground arith)
  | inr (rest, e, split, up) ↦ elim (Bool-cases (upper_byte c == x)) [
    | inl same ↦ inr (rest, ground arith, ap (◌∷◌ c) split, ground arith)
    | inr other ↦ inl (ground arith)
  ]
]

strip_fold_complete : (w m rest : Text) → to_upper m ≡ w → strip_fold w (m ++ rest) ≡ some rest
unfolding strip_fold to_upper upper_byte
strip_fold_complete [] [] rest h = refl
strip_fold_complete [] (c ∷ m) rest h = cc
strip_fold_complete (x ∷ w) [] rest h = cc
strip_fold_complete (x ∷ w) (c ∷ m) rest h = ground (arith, strip_fold_complete w m rest)

-- What a word's match is: the word in some letter case, with a delimiter or the end behind it.
abbrev IsWordAt : Text → Text → Text → Type 0
IsWordAt w s m = (rest : Text) × (s ≡ m ++ rest) × (to_upper m ≡ w) × (ends rest ≡ true)

upper_word : (w s m : Text) → IsWordAt w s m → to_upper m ≡ w
upper_word w s m (rest, split, up, b) = up

capture_sound : (w s m : Text) → capture w s ≡ some m → IsWordAt w s m
unfolding capture
capture_sound w s m h = elim (strip_fold-cases w s) [
  | inl e ↦ absurd (none-ne-some m (rw (e, capture) at h))
  | inr (rest, e, split, up) ↦ elim (Bool-cases (ends rest)) [
    | inl b ↦
        let same : take (length w) s ≡ m = some-injective _ _ (rw (e, capture, b) at h) in
        (rest, split ∙ ap (λ t. t ++ rest) same, ap to_upper (sym same) ∙ up, b)
    | inr b ↦ absurd (none-ne-some m (rw (e, capture, b) at h))
  ]
]

length-to_upper : (m : Text) → length (to_upper m) ≡ length m
unfolding to_upper
length-to_upper [] = refl
length-to_upper (c ∷ m) = ap suc (length-to_upper m)

capture_complete : (w s m : Text) → IsWordAt w s m → capture w s ≡ some m
unfolding capture
capture_complete w s m (rest, split, up, b) =
    let stripped : strip_fold w s ≡ some rest =
      ap (strip_fold w) split ∙ strip_fold_complete w m rest up in
    let front : take (length w) s ≡ m =
      ap (take (length w)) split
      ∙ take-append_le (length w) m rest (omega (arith, ap length up, length-to_upper m))
      ∙ take_all (length w) m (omega (arith, ap length up, length-to_upper m)) in
    rw (stripped, capture, b, front) refl

-- The first alternative that matches, or that none does.
capture_first-cases :
    (ws : List Text) (s : Text)
    → ((capture_first ws s ≡ none) × ((w m : Text) → Elem w ws → ¬ IsWordAt w s m))
      ⊎ ((w : Text) × (m : Text) × (capture_first ws s ≡ some m) × Elem w ws × IsWordAt w s m)
unfolding capture_first
capture_first-cases [] s = inl (refl, λ w m e _. no-Elem e)
capture_first-cases (x ∷ ws) s = elim (Option-cases (capture x s)) [
  | inr (m, e) ↦ inr (x, m, rw (e, capture_first) refl, here refl, capture_sound x s m e)
  | inl e ↦ elim (capture_first-cases ws s) [
    | inr (w, m, f, el, word) ↦ inr (w, m, rw (e, capture_first) f, there el, word)
    | inl (f, never) ↦ inl (
      rw (e, capture_first) f,
      λ w m. elim [
        | here p ↦ λ word.
            none-ne-some m (sym e ∙ capture_complete x s m (subst (λ y. IsWordAt y s m) p word))
        | there el ↦ never w m el
      ],
    )
  ]
]

-- The line has the word behind a delimiter.
abbrev IsDelimited : Text → Text → Text → Type 0
IsDelimited w line m =
    (pre : Text) × (d : ℕ) × (s : Text) × (line ≡ pre ++ d ∷ s)
    × (is_delimiter d ≡ true)
    × IsWordAt w s m

-- Such a word stands behind the first byte or further on.
IsDelimited-cons :
    (w m : Text) (c : ℕ) (line : Text)
    → IsDelimited w (c ∷ line) m
    → ((is_delimiter c ≡ true) × IsWordAt w line m) ⊎ IsDelimited w line m
IsDelimited-cons w m c line ([], d, s, split, delim, word) =
    let first : c ≡ d = cc in
    let rest : line ≡ s = cc in
    inl (ap is_delimiter first ∙ delim, subst (λ t. IsWordAt w t m) (sym rest) word)
IsDelimited-cons w m c line (b ∷ pre, d, s, split, delim, word) = inr (pre, d, s, cc, delim, word)

find_delimited-cases :
    (line : Text)
    → ((find_delimited line ≡ none) × ((w m : Text) → Elem w words → ¬ IsDelimited w line m))
      ⊎ ((w : Text) × (m : Text) × (find_delimited line ≡ some m)
          × Elem w words
          × IsDelimited w line m)
unfolding find_delimited
find_delimited-cases [] = inl (refl, λ w m e (pre, d, s, split, _, _). nil_ne_snoc d s pre split)
find_delimited-cases (c ∷ line) = elim (Bool-cases (is_delimiter c)) [
  | inr plain ↦ elim (find_delimited-cases line) [
    | inl (e, never) ↦ inl (
      rw plain e,
      λ w m el d. elim (IsDelimited-cons w m c line d) [
        | inl (delim, _) ↦ cc
        | inr later ↦ never w m el later
      ],
    )
    | inr (w, m, e, el, (pre, d, s, split, delim, word)) ↦
        inr (w, m, rw plain e, el, (c ∷ pre, d, s, ap (◌∷◌ c) split, delim, word))
  ]
  | inl front ↦ elim (capture_first-cases words line) [
    | inr (w, m, e, el, word) ↦ inr (w, m, rw (front, e) refl, el, ([], c, line, refl, front, word))
    | inl (f, no_word) ↦ elim (find_delimited-cases line) [
      | inl (e, never) ↦ inl (
        rw (front, f) e,
        λ w m el d. elim (IsDelimited-cons w m c line d) [
          | inl (_, word) ↦ no_word w m el word
          | inr later ↦ never w m el later
        ],
      )
      | inr (w, m, e, el, (pre, d, s, split, delim, word)) ↦
          inr (w, m, rw (front, f) e, el, (c ∷ pre, d, s, ap (◌∷◌ c) split, delim, word))
    ]
  ]
]

-- A level word, in any letter case, that stands at the start of the line or behind a delimiter, and
-- before a delimiter or the end.
abbrev pub HasLevel : Text → Text → Type 0
HasLevel w line = (m : Text) × (IsWordAt w line m ⊎ IsDelimited w line m)

-- The names and numbers that the exporter is given.
abbrev pub IsLevel : Text × ℕ → Type 0
IsLevel r = Elem r (
    (bytes "TRACE", 1)
    ∷ (bytes "DEBUG", 5)
    ∷ (bytes "INFO", 9)
    ∷ (bytes "WARN", 13)
    ∷ (bytes "ERROR", 17)
    ∷ (bytes "FATAL", 21)
    ∷ [])

-- Every alternative of the pattern has a level, so the `default` branch is not reached.
All-words-IsLevel : All (λ w. IsLevel (classify w)) words
unfolding words classify text_eq bytes
All-words-IsLevel = (
  here refl,
  (
    there (here refl),
    (
      there (there (here refl)),
      (
        there (there (here refl)),
        (
          there (there (there (here refl))),
          (
            there (there (there (here refl))),
            (
              there (there (there (there (here refl)))),
              (
                there (there (there (there (here refl)))),
                (
                  there (there (there (there (there (here refl))))),
                  (
                    there (there (there (there (there (here refl))))),
                    (
                      there (there (there (there (there (here refl))))),
                      (
                        there (there (there (there (there (here refl))))),
                        (
                          there (there (there (there (there (here refl))))),
                          (there (there (there (there (there (here refl))))), tt),
                        ),
                      ),
                    ),
                  ),
                ),
              ),
            ),
          ),
        ),
      ),
    ),
  ),
)

elem_all {ℓ} : {A : Type 0} (P : A → Type ℓ) (a : A) (xs : List A) → All P xs → Elem a xs → P a
elem_all P a [] h m = elim m [ ]
elem_all P a (x ∷ xs) (p, h) (here e) = subst P (sym e) p
elem_all P a (x ∷ xs) (p, h) (there m) = elem_all P a xs h m

classify-IsLevel : (w : Text) → Elem w words → IsLevel (classify w)
classify-IsLevel w e = elem_all (λ v. IsLevel (classify v)) w words All-words-IsLevel e

find_severity_first :
    (line m : Text) → capture_first words line ≡ some m → find_severity line ≡ some m
unfolding find_severity
find_severity_first line m e = rw (e, find_severity) refl

find_severity_behind :
    (line : Text) → capture_first words line ≡ none → find_severity line ≡ find_delimited line
unfolding find_severity
find_severity_behind line e = rw (e, find_severity) refl

parse_severity-some :
    (body m : Text)
    → find_severity (before newline body) ≡ some m
    → parse_severity body ≡ classify (to_upper m)
unfolding parse_severity
parse_severity-some body m e = rw (e, parse_severity) refl

parse_severity-none :
    (body : Text) → find_severity (before newline body) ≡ none → parse_severity body ≡ ([], 0)
unfolding parse_severity
parse_severity-none body e = rw (e, parse_severity) refl

-- A record has a severity exactly if its first line has a level word, in any letter case, at the
-- start or behind a delimiter and before a delimiter or the end; the severity is then one of the
-- six levels, that of such a word.
pub parse_severity_lem :
    (body : Text)
    → ((parse_severity body ≡ ([], 0))
        × ((w : Text) → Elem w words → ¬ HasLevel w (before newline body)))
      ⊎ ((w : Text) × Elem w words
          × HasLevel w (before newline body)
          × (parse_severity body ≡ classify w)
          × IsLevel (classify w))
parse_severity_lem body = elim (capture_first-cases words (before newline body)) [
  | inr (w, m, e, el, word) ↦ inr (
    w,
    el,
    (m, inl word),
    parse_severity-some body m (find_severity_first _ m e) ∙ ap classify (upper_word w _ m word),
    classify-IsLevel w el,
  )
  | inl (e, no_word) ↦ elim (find_delimited-cases (before newline body)) [
    | inl (f, never) ↦ inl (
      parse_severity-none body (find_severity_behind _ e ∙ f),
      λ w el (m, found). elim found [
        | inl word ↦ no_word w m el word
        | inr later ↦ never w m el later
      ],
    )
    | inr (w, m, f, el, later) ↦ inr (
      w,
      el,
      (m, inr later),
      parse_severity-some body m (find_severity_behind _ e ∙ f)
          ∙ ap classify (upper_word w _ m later.5),
      classify-IsLevel w el,
    )
  ]
]
