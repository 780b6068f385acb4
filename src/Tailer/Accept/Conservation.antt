-- ===== src/Tailer/Accept/Conservation.antt =====
-- internal/tailer/tailer.go, `accept`: no line of a multi-line target is lost.
use log_collector.Base.{
  ◌≡◌, ◌≢◌, refl, ap, sym, subst, ◌∙◌, ◌⊎◌, inl, inr, none, some, List, [], ◌∷◌, ◌++◌, ◌==◌,
  text_eq, map, All, append_assoc, append-nil, Bool-cases, ==→≡,
}
use log_collector.Base.Dict.{lookup}
use log_collector.Base.Int.{int_eq}
use log_collector.Base.Text.{Text}
use log_collector.Model.{FileTarget, Record, Time}
use log_collector.Tailer.Lines.{newline}
use log_collector.Tailer.Accept.{
  Pending, Limits, Outside, Tailer, Outcome, Failure, done, failed, parse_line, pending_of,
  accept_multiline, accept, cut_line,
}
use log_collector.Tailer.Accept.Follows.{extend, Follows, multiline-Follows}

-- Texts with a newline between each two.
abbrev pub joined : Text → List Text → Text
joined held [] = held
joined held (x ∷ xs) = held ++ newline ∷ joined x xs

not_done : (f : Failure) → failed f ≡ done → ⊥
not_done f e = cc

abbrev pub told : List Record → Text → Text
told [] held = held
told (r ∷ rs) held = r.body ++ newline ∷ told rs held

joined-append :
    (x y : Text) (zs : List Text) → joined (x ++ newline ∷ y) zs ≡ x ++ newline ∷ joined y zs
joined-append x y [] = refl
joined-append x y (z ∷ zs) = append_assoc x (newline ∷ y) (newline ∷ joined z zs)

Outcome-cases : (o : Outcome) → (o ≡ done) ⊎ ((f : Failure) × (o ≡ failed f))
Outcome-cases done = inl refl
Outcome-cases (failed f) = inr (f, refl)

extend_full : (held line : Text) → held ≢ [] → extend held line ≡ held ++ newline ∷ line
extend_full held line h = elim (Bool-cases (held == [])) [
  | inl empty ↦ absurd (h (==→≡ _ _ empty))
  | inr full ↦ rw full refl
]

extend_empty : (line : Text) → extend [] line ≡ line
unfolding text_eq
extend_empty line = refl

append-not-nil : (x y : Text) → x ++ newline ∷ y ≢ []
append-not-nil [] y e = cc
append-not-nil (c ∷ x) y e = cc

module _ (out : Outside) (limits : Limits) (now : Time) (key : Text) (target : FileTarget) where
  -- A line as it stands in a record.
  abbrev pub cut : Text → Text
  cut line = (cut_line out limits (parse_line out target line)).line

  -- The calls of accept for some lines, up to the first that fails.
  abbrev pub accept_lines : List Text → Tailer → Outcome × Tailer
  accept_lines [] t = (done, t)
  accept_lines (line ∷ lines) t = elim (accept out limits now key target line t).0 [
    | failed f ↦ (failed f, (accept out limits now key target line t).1)
    | done ↦ accept_lines lines (accept out limits now key target line t).1
  ]

  -- All the text is in the records emitted since and in the entry, which stands for a line held before.
  abbrev Keeps : Text → List Text → Tailer → Tailer → Type 0
  Keeps held lines t t' =
      (rs : List Record) × (q : Pending) × (t'.emitted ≡ t.emitted ++ rs)
      × (lookup key t'.pending ≡ some q)
      × (told rs q.body ≡ joined held (map cut lines))

  accept-Follows :
      (line : Text) (t : Tailer)
      → target.multiline.start_pattern ≢ []
      → (pending_of out now key target t).target.drop_levels ≡ []
      → (accept out limits now key target line t).0 ≡ done
      → Follows out key
          (pending_of out now key target t)
          (cut line)
          t
          (accept out limits now key target line t).1
  unfolding accept accept_multiline
  accept-Follows line t multi drops e = elim (Bool-cases (target.multiline.start_pattern == [])) [
    | inl single ↦ absurd (multi (==→≡ _ _ single))
    | inr several ↦
        let p = pending_of out now key target t in
        rw several (
          multiline-Follows out key p.start limits now
            (cut_line out limits (parse_line out target line)) p t drops (rw several at e))
  ]

  pending_of-some :
      (t : Tailer) (p : Pending)
      → lookup key t.pending ≡ some p
      → pending_of out now key target t ≡ p
  unfolding pending_of
  pending_of-some t p e = rw (e, pending_of) refl

  pending_of-none :
      (t : Tailer)
      → lookup key t.pending ≡ none
      → ((pending_of out now key target t).target ≡ target)
        × ((pending_of out now key target t).body ≡ [])
  unfolding pending_of
  pending_of-none t e = (rw (e, pending_of) refl, rw (e, pending_of) refl)

  grown-Keeps :
      (p q : Pending) (line : Text) (lines : List Text) (t t1 t2 : Tailer)
      → p.body ≢ []
      → t1.emitted ≡ t.emitted
      → q.body ≡ extend p.body (cut line)
      → Keeps q.body lines t1 t2
      → Keeps p.body (line ∷ lines) t t2
  grown-Keeps p q line lines t t1 t2 full same grown (rs, last, emitted, entry, text) = (
    rs,
    last,
    emitted ∙ ap (λ e. e ++ rs) same,
    entry,
    text
        ∙ ap (λ b. joined b (map cut lines)) (grown ∙ extend_full p.body (cut line) full)
        ∙ joined-append p.body (cut line) (map cut lines),
  )

  sent-Keeps :
      (p q : Pending) (r : Record) (line : Text) (lines : List Text) (t t1 t2 : Tailer)
      → t1.emitted ≡ t.emitted ++ r ∷ []
      → r.body ≡ p.body
      → q.body ≡ cut line
      → Keeps q.body lines t1 t2
      → Keeps p.body (line ∷ lines) t t2
  sent-Keeps p q r line lines t t1 t2 sent same next (rs, last, emitted, entry, text) = (
    r ∷ rs,
    last,
    emitted ∙ ap (λ e. e ++ rs) sent ∙ append_assoc t.emitted (r ∷ []) rs,
    entry,
    ap (λ b. b ++ newline ∷ told rs last.body) same
        ∙ ap (λ s. p.body ++ newline ∷ s) (text ∙ ap (λ b. joined b (map cut lines)) next),
  )

  accept_lines-done :
      (line : Text) (lines : List Text) (t : Tailer)
      → (accept out limits now key target line t).0 ≡ done
      → accept_lines (line ∷ lines) t
        ≡ accept_lines lines (accept out limits now key target line t).1
  accept_lines-done line lines t ok = rw (ok, accept_lines) refl

  accept_lines-failed :
      (line : Text) (lines : List Text) (t : Tailer) (f : Failure)
      → (accept out limits now key target line t).0 ≡ failed f
      → (accept_lines (line ∷ lines) t).0 ≡ failed f
  accept_lines-failed line lines t f bad = rw (bad, accept_lines) refl

  lines_kept :
      (lines : List Text) (t : Tailer) (p : Pending)
      → target.multiline.start_pattern ≢ []
      → lookup key t.pending ≡ some p
      → p.target.drop_levels ≡ []
      → p.body ≢ []
      → All (λ l. cut l ≢ []) lines
      → (accept_lines lines t).0 ≡ done
      → Keeps p.body lines t (accept_lines lines t).1
  lines_kept [] t p multi entry drops full h e = ([], p, sym (append-nil t.emitted), entry, refl)
  lines_kept (line ∷ lines) t p multi entry drops full (h, hs) e =
      let step = accept out limits now key target line t in
      let is_p = pending_of-some t p entry in
      elim (Outcome-cases step.0) [
        | inr (f, bad) ↦ absurd (not_done f (sym (accept_lines-failed line lines t f bad) ∙ e))
        | inl ok ↦
            let (q, entry', target', how) =
              subst (λ p. Follows out key p (cut line) t step.1) is_p
                (accept-Follows line t multi (ap (λ p. p.target.drop_levels) is_p ∙ drops) ok) in
            let drops' = ap (λ g. g.drop_levels) target' ∙ drops in
            let goes = accept_lines-done line lines t ok in
            let e' = ap (λ s. s.0) (sym goes) ∙ e in
            subst (λ s. Keeps p.body (line ∷ lines) t s.1) (sym goes)
              (elim how [
                | inl (same, grown) ↦
                    let full' : q.body ≢ [] = λ n.
                      append-not-nil p.body (cut line)
                        (sym (grown ∙ extend_full p.body (cut line) full) ∙ n) in
                    (grown-Keeps p q line lines t step.1 (accept_lines lines step.1).1 full same
                      grown (lines_kept lines step.1 q multi entry' drops' full' hs e'))
                | inr (_, r, sent, same, next) ↦
                    (sent-Keeps p q r line lines t step.1 (accept_lines lines step.1).1 sent same
                      next
                      (lines_kept lines step.1 q multi entry' drops' (λ n. h (sym next ∙ n)) hs e'))
              ])
      ]

  -- When accept takes lines for a multi-line target one after another and each call succeeds,
  -- their text is kept, whole and in order: the bodies of the records emitted meanwhile and the
  -- body of the pending record, joined by newlines, are the lines, joined by newlines, as
  -- parseCRI and the limit leave them. No record is pending before, none is dropped for its
  -- level, and no line is empty.
  pub accept_lines-told :
      (line : Text) (lines : List Text) (t : Tailer)
      → target.multiline.start_pattern ≢ []
      → target.drop_levels ≡ []
      → lookup key t.pending ≡ none
      → All (λ l. cut l ≢ []) (line ∷ lines)
      → (accept_lines (line ∷ lines) t).0 ≡ done
      → (rs : List Record) × (q : Pending) × ((accept_lines (line ∷ lines) t).1.emitted
          ≡ t.emitted ++ rs)
        × (lookup key (accept_lines (line ∷ lines) t).1.pending ≡ some q)
        × (told rs q.body ≡ joined (cut line) (map cut lines))
  accept_lines-told line lines t multi drops entry (h, hs) e =
      let step = accept out limits now key target line t in
      let (of_target, empty) = pending_of-none t entry in
      elim (Outcome-cases step.0) [
        | inr (f, bad) ↦ absurd (not_done f (sym (accept_lines-failed line lines t f bad) ∙ e))
        | inl ok ↦
            let (q, entry', target', how) =
              accept-Follows line t multi (ap (λ g. g.drop_levels) of_target ∙ drops) ok in
            let goes = accept_lines-done line lines t ok in
            let e' = ap (λ s. s.0) (sym goes) ∙ e in
            elim how [
              | inr (full, _, _, _, _) ↦ absurd (full empty)
              | inl (same, grown) ↦
                  let first : q.body ≡ cut line =
                    grown ∙ ap (λ b. extend b (cut line)) empty ∙ extend_empty (cut line) in
                  let (rs, last, emitted, held, text) =
                    lines_kept lines step.1 q multi entry'
                      (ap (λ g. g.drop_levels) (target' ∙ of_target) ∙ drops)
                      (λ n. h (sym first ∙ n)) hs e' in
                  subst (λ s. Keeps (cut line) lines t s.1) (sym goes)
                    (
                      rs,
                      last,
                      emitted ∙ ap (λ m. m ++ rs) same,
                      held,
                      text ∙ ap (λ b. joined b (map cut lines)) first,
                    )
            ]
      ]
