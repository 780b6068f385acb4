-- ===== src/Tailer/Accept/Bounds.antt =====
-- internal/tailer/tailer.go, `accept`: the size of a record of several lines.
use log_collector.Base.{
  some-injective, ℕ, ◌+◌, ◌≤◌, ◌≡◌, refl, ap, sym, subst, ◌∙◌, ◌⊎◌, inl, inr, Bool, true, false,
  not, ◌&&◌, ◌||◌, Option, none, some, [], ◌∷◌, ◌++◌, ◌==◌, text_eq, ltb, length, length-append,
  length-take, if◌then◌else◌, Bool-cases, Option-cases, ==→≡, ==_refl, arith,
}
use log_collector.Base.Dict.{lookup, lookup-insert}
use log_collector.Base.Text.{Text}
use log_collector.Utf8.{runes}
use log_collector.Utf8.Prefix.{length-runes_le}
use log_collector.Model.{FileTarget, Regexp, Record, Time}
use log_collector.Tailer.Lines.{newline}
use log_collector.Tailer.Lines.Laws.{runes-truncate_runes}
use log_collector.Tailer.Records.{Attributes, prepared_record}
use log_collector.Tailer.Accept.{
  Pending, Limits, Outside, Tailer, Outcome, done, failed, panic, Parsed, emit_prepared,
  emit_record, parse_line, pending_of, written_to, append_line, over_limit, send_and_append,
  accept_multiline, accept, cut_line, with_pending,
}

-- Its size is that of its body, and the body has at most as many runes as the limit.
abbrev pub IsBounded : Limits → Pending → Type 0
IsBounded limits p = (p.size ≡ length p.body) × (length (runes p.body) ≤ limits.max_multiline_size)

abbrev pub AllBounded : Limits → Tailer → Type 0
AllBounded limits t = (k : Text) (p : Pending) → lookup k t.pending ≡ some p → IsBounded limits p

fits_in : (limit : ℕ) (s : Text) → (ltb limit (length s)) ≡ false → length (runes s) ≤ limit
fits_in limit s e = let h = length-runes_le s in ground arith

-- The size of an entry after a line.
appended :
    (limit size : ℕ) (body line : Text) (empty : Bool)
    → (body == []) ≡ empty
    → size ≡ length body
    → (empty ≡ true) ⊎ (size + length line + 1 ≤ limit)
    → length (runes line) ≤ limit
    → let body' : Text = if empty then line else body ++ newline ∷ line in
      ((if empty then size + length line else size + 1 + length line) ≡ length body')
      × (length (runes body') ≤ limit)
appended limit size body line true is_empty same room fits =
    let none_left : length body ≡ 0 = ap length (==→≡ body [] is_empty) in (omega arith, fits)
appended limit size body line false is_empty same (inl e) fits = cc
appended limit size body line false is_empty same (inr room) fits =
    let total = length-append body (newline ∷ line) in
    (omega arith, let h = length-runes_le (body ++ newline ∷ line) in omega arith)

module _ (out : Outside) (limits : Limits) where
  cut_line_bounded :
      (parsed : Parsed)
      → length (runes (cut_line out limits parsed).line) ≤ limits.max_multiline_size
  cut_line_bounded parsed = elim (Bool-cases (ltb limits.max_multiline_size (length parsed.line))) [
    | inl long ↦ rw long (
        omega (
          arith,
          ap length (runes-truncate_runes parsed.line limits.max_multiline_size),
          length-take limits.max_multiline_size (runes parsed.line),
        ))
    | inr short ↦ rw short (fits_in limits.max_multiline_size parsed.line short)
  ]

  append_line-IsBounded :
      (now : Time) (parsed : Parsed) (p : Pending)
      → IsBounded limits p
      → ((p.body == []) ≡ true) ⊎ (p.size + length parsed.line + 1 ≤ limits.max_multiline_size)
      → length (runes parsed.line) ≤ limits.max_multiline_size
      → IsBounded limits (append_line out now parsed p)
  unfolding append_line
  append_line-IsBounded now parsed p (size, fits) room line =
      appended limits.max_multiline_size p.size p.body parsed.line (p.body == []) refl size room
        line

  insert-AllBounded :
      (key : Text) (p : Pending) (t : Tailer)
      → IsBounded limits p
      → AllBounded limits t
      → AllBounded limits (with_pending out key p t)
  insert-AllBounded key p t good h k q e = elim (Bool-cases (key == k)) [
    | inl same ↦
        let found : some p ≡ some q = sym (lookup-insert k key p t.pending ∙ rw same refl) ∙ e in
        subst (IsBounded limits) (some-injective _ _ found) good
    | inr other ↦ h k q (sym (lookup-insert k key p t.pending ∙ rw other refl) ∙ e)
  ]

  emit_prepared-pending :
      (now : Time) (r : Record) (t : Tailer) → (emit_prepared out now r t).1.pending ≡ t.pending
  unfolding emit_prepared
  emit_prepared-pending now r t = ground arith

  pending_of-IsBounded :
      (now : Time) (key : Text) (target : FileTarget) (t : Tailer)
      → AllBounded limits t
      → IsBounded limits (pending_of out now key target t)
  unfolding pending_of runes
  pending_of-IsBounded now key target t h = elim (Option-cases (lookup key t.pending)) [
    | inl fresh ↦ rw (fresh, pending_of) (refl, omega arith)
    | inr (p, e) ↦ rw (e, pending_of) (h key p e)
  ]

  same_pending :
      (t t' : Tailer) → t'.pending ≡ t.pending → AllBounded limits t → AllBounded limits t'
  same_pending t t' e h k p f = h k p (ap (lookup k) (sym e) ∙ f)

  either_outcome :
      (o : Outcome) (t t' : Tailer)
      → AllBounded limits t
      → AllBounded limits t'
      → AllBounded limits
          (elim o as (λ o. Outcome × Tailer) [ failed f ↦ (failed f, t) | done ↦ (done, t') ]).1
  either_outcome done t t' h h' = h'
  either_outcome (failed f) t t' h h' = h

  send_and_append-AllBounded :
      (now : Time) (key : Text) (parsed : Parsed) (p : Pending) (t : Tailer)
      → IsBounded limits p
      → length (runes parsed.line) ≤ limits.max_multiline_size
      → AllBounded limits t
      → AllBounded limits (send_and_append out now key parsed p t).1
  unfolding send_and_append runes
  send_and_append-AllBounded now key parsed p t good line h =
      elim (Option-cases (prepared_record p.target p.body p.timestamp p.attributes)) [
        | inl bad ↦ rw (bad, send_and_append) (insert-AllBounded key p t good h)
        | inr (r, e) ↦
            let kept : Pending = record p {
              attributes = written_to out p.attributes r.attributes;
            } in
            let emptied : Pending = record kept { body = []; size = 0; lines = 0 } in
            let held = with_pending out key kept t in
            let after = (emit_prepared out now r held).1 in
            let stays : AllBounded limits after =
              same_pending held after (emit_prepared-pending now r held)
                (insert-AllBounded key kept t good h) in
            rw (e, send_and_append)
              (either_outcome (emit_prepared out now r held).0 after
                (with_pending out key (append_line out now parsed emptied) after) stays
                (insert-AllBounded key (append_line out now parsed emptied) after
                  (append_line-IsBounded now parsed emptied (refl, omega arith)
                    (inl (==_refl {A = Text} [])) line)
                  stays))
      ]

  no_more :
      (starts many : Bool) (size : ℕ)
      → ((starts || (ltb limits.max_multiline_size size || many)) && true) ≡ false
      → size ≤ limits.max_multiline_size
  no_more starts many size e = ground arith

  -- An entry with room for the line.
  has_room :
      (line : Text) (p : Pending) (starts : Bool)
      → ((starts || over_limit out limits line p) && not (p.body == [])) ≡ false
      → ((p.body == []) ≡ true) ⊎ (p.size + length line + 1 ≤ limits.max_multiline_size)
  unfolding over_limit
  has_room line p starts e = elim (Bool-cases (p.body == [])) [
    | inl empty ↦ inl empty
    | inr full ↦ inr (no_more starts _ _ (rw full at e))
  ]

  multiline_parts :
      (start : Option Regexp) (now : Time) (key : Text) (parsed : Parsed) (p : Pending) (t : Tailer)
      → IsBounded limits p
      → length (runes parsed.line) ≤ limits.max_multiline_size
      → AllBounded limits t
      → AllBounded limits
          (elim start as (λ o. Outcome × Tailer) [
            | none ↦ (failed panic, with_pending out key p t)
            | some start ↦
                if (start.match_string parsed.line || over_limit out limits parsed.line p)
                  && not (p.body == [])
                then send_and_append out now key parsed p t
                else (done, with_pending out key (append_line out now parsed p) t)
          ]).1
  multiline_parts none now key parsed p t good line h = insert-AllBounded key p t good h
  multiline_parts (some start) now key parsed p t good line h =
      elim (Bool-cases (
        (start.match_string parsed.line || over_limit out limits parsed.line p)
        && not (p.body == []))) [
          | inl ends ↦ rw ends (send_and_append-AllBounded now key parsed p t good line h)
          | inr goes_on ↦ rw goes_on (
              insert-AllBounded key (append_line out now parsed p) t
                (append_line-IsBounded now parsed p good
                  (has_room parsed.line p (start.match_string parsed.line) goes_on) line)
                h)
        ]

  emit_record-pending :
      (now : Time) (target : FileTarget) (body : Text) (timestamp : Time) (attrs : Attributes)
      (t : Tailer)
      → (emit_record out now target body timestamp attrs t).1.pending ≡ t.pending
  unfolding emit_record
  emit_record-pending now target body timestamp attrs t =
      elim (Option-cases (prepared_record target body timestamp attrs)) [
        | inl bad ↦ rw (bad, emit_record) refl
        | inr (r, e) ↦ rw (e, emit_record) (emit_prepared-pending now r t)
      ]

  -- Whatever lines accept takes, for whatever targets, and whether emit fails or not: the size
  -- kept of a pending record is the number of bytes of its body, and its body has at most
  -- maxMultilineSize runes. It holds after the call for all pending records if it holds before.
  pub accept-AllBounded :
      (now : Time) (key : Text) (target : FileTarget) (line : Text) (t : Tailer)
      → AllBounded limits t
      → AllBounded limits (accept out limits now key target line t).1
  unfolding accept accept_multiline
  accept-AllBounded now key target line t h =
      let parsed = parse_line out target line in
      let p = pending_of out now key target t in
      elim (Bool-cases (target.multiline.start_pattern == [])) [
        | inl single ↦ rw single (
            same_pending t
              (emit_record out now target parsed.line parsed.timestamp parsed.attributes t).1
              (emit_record-pending now target parsed.line parsed.timestamp parsed.attributes t) h)
        | inr multi ↦ rw multi (
            multiline_parts p.start now key (cut_line out limits parsed) p t
              (pending_of-IsBounded now key target t h) (cut_line_bounded parsed) h)
      ]
