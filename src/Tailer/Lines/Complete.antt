-- ===== src/Tailer/Lines/Complete.antt =====
-- The lines of a file as a list, for the specification of reading it.
use log_collector.Base.{
  ℕ, ◌≡◌, refl, ap, ◌⊎◌, inl, inr, List, [], ◌∷◌, ◌++◌, arith, ◌==◌, nat_eq, if◌then◌else◌,
  Bool-cases, ==→≡, ne_of_eq_false,
}
use log_collector.Base.Text.{Text}
use log_collector.Tailer.Lines.{newline}
use log_collector.Tailer.Lines.Laws.{NoNewline}

-- The lines of a text that end in a newline, without it.
cons_line : ℕ → List Text → List Text
cons_line c [] = []
cons_line c (l ∷ ls) = (c ∷ l) ∷ ls

pub complete_lines : Text → List Text
unfolding cons_line
complete_lines [] = []
complete_lines (c ∷ s) =
    let rest = complete_lines s in if c == newline then [] ∷ rest else cons_line c rest

pub complete_lines-line :
    (body rest : Text)
    → NoNewline body
    → complete_lines (body ++ newline ∷ rest) ≡ body ∷ complete_lines rest
unfolding complete_lines
complete_lines-line [] rest h = ground arith
complete_lines-line (c ∷ body) rest (h, k) = ground (arith, complete_lines-line body rest k)

pub complete_lines-tail : (s : Text) → NoNewline s → complete_lines s ≡ []
unfolding complete_lines
complete_lines-tail [] h = refl
complete_lines-tail (c ∷ s) (h, k) = ground (arith, complete_lines-tail s k)

-- A text has no newline, or a first line.
pub line_or_tail :
    (s : Text)
    → NoNewline s ⊎ ((body : Text) × (rest : Text) × NoNewline body × (s ≡ body ++ newline ∷ rest))
line_or_tail [] = inl tt
line_or_tail (c ∷ s) = elim (Bool-cases (c == newline)) [
  | inl same ↦ inr ([], s, tt, ap (λ x. x ∷ s) (==→≡ _ _ same))
  | inr other ↦ elim (line_or_tail s) [
    | inl h ↦ inl (ne_of_eq_false other, h)
    | inr (body, rest, h, split) ↦ inr (c ∷ body, rest, (ne_of_eq_false other, h), ap (◌∷◌ c) split)
  ]
]
