-- ===== src/Tailer/Accept/Follows.antt =====
-- internal/tailer/tailer.go, `accept`: the lines of a multi-line target, in the records emitted and in
-- the pending one.
use log_collector.Base.{
  ◌≡◌, ◌≢◌, refl, ap, sym, subst, ◌∙◌, ◌⊎◌, inl, inr, Bool, true, false, not, ◌&&◌, ◌||◌, Option,
  none, some, some-injective, [], ◌∷◌, ◌++◌, ◌==◌, text_eq, Elem, if◌then◌else◌, Bool-cases,
  Option-cases, ==_refl, ne_of_eq_false,
}
use log_collector.Base.Dict.{lookup, lookup-insert}
use log_collector.Base.Int.{int_eq}
use log_collector.Base.Text.{Text}
use log_collector.Model.{FileTarget, Regexp, Record, Time, zero_time}
use log_collector.Tailer.Lines.{newline}
use log_collector.Tailer.Records.{Attributes, prepared_record, prepared_record-total}
use log_collector.Tailer.Accept.{
  Pending, Limits, Outside, Tailer, Outcome, done, failed, rejected, panic, Parsed, emit_prepared,
  written_to, append_line, over_limit, send_and_append, with_pending,
}

-- A line behind the text held.
abbrev pub extend : Text → Text → Text
extend held line = if held == [] then line else held ++ newline ∷ line

module _ (out : Outside) (key : Text) where
  -- Either the line is added to the entry, or the entry's body is emitted and the line begins the next.
  abbrev pub Follows : Pending → Text → Tailer → Tailer → Type 0
  Follows p line t t' =
      (q : Pending) × (lookup key t'.pending ≡ some q)
      × (q.target ≡ p.target)
      × (((t'.emitted ≡ t.emitted) × (q.body ≡ extend p.body line))
          ⊎ ((p.body ≢ [])
              × (r : Record) × (t'.emitted ≡ t.emitted ++ r ∷ [])
              × (r.body ≡ p.body)
              × (q.body ≡ line)))

  lookup-with_pending :
      (p : Pending) (t : Tailer) → lookup key (with_pending out key p t).pending ≡ some p
  lookup-with_pending p t = lookup-insert key key p t.pending ∙ rw (==_refl key) refl

  not_dropped :
      (target : FileTarget) (body : Text) (timestamp : Time) (attrs : Attributes) (r : Record)
      → target.drop_levels ≡ []
      → prepared_record target body timestamp attrs ≡ some r
      → (r.dropped ≡ false) × (r.body ≡ body)
  not_dropped target body timestamp attrs r e f =
      let (r', f', same, _, (drops, _)) = prepared_record-total target body timestamp attrs in
      let equal : r' ≡ r = some-injective _ _ (sym f' ∙ f) in
      (
        elim (Bool-cases r'.dropped) [
          | inl yes_dropped ↦ elim (subst (Elem r'.severity_text) e (drops yes_dropped)) [ ]
          | inr kept ↦ ap (λ r. r.dropped) (sym equal) ∙ kept
        ],
        ap (λ r. r.body) (sym equal) ∙ same,
      )

  emit_parts :
      (dropped takes : Bool) (s : Record) (t : Tailer)
      → dropped ≡ false
      → let res : Outcome × Tailer =
          if dropped
          then (done, t)
          else if takes
          then (done, record t { emitted = t.emitted ++ s ∷ [] })
          else (failed rejected, t) in
        res.0 ≡ done → res.1.emitted ≡ t.emitted ++ s ∷ []
  emit_parts true takes s t kept e = cc
  emit_parts false true s t kept e = refl
  emit_parts false false s t kept e = cc

  emit_follows :
      (now : Time) (r : Record) (t : Tailer)
      → r.dropped ≡ false
      → (emit_prepared out now r t).0 ≡ done
      → (s : Record) × ((emit_prepared out now r t).1.emitted ≡ t.emitted ++ s ∷ [])
        × (s.body ≡ r.body)
  unfolding emit_prepared
  emit_follows now r t kept e =
      let stamped : Record = record r {
        timestamp = if r.timestamp == zero_time then now else r.timestamp;
        observed_timestamp = now;
      } in
      (stamped, emit_parts r.dropped (out.takes t.emitted stamped) stamped t kept e, refl)

  -- The entry after a line.
  continues :
      (now : Time) (parsed : Parsed) (p : Pending) (t : Tailer)
      → Follows p parsed.line t (with_pending out key (append_line out now parsed p) t)
  unfolding append_line
  continues now parsed p t = (
    append_line out now parsed p,
    lookup-with_pending (append_line out now parsed p) t,
    refl,
    inl (refl, refl),
  )

  sends_parts :
      (o : Outcome) (now : Time) (parsed : Parsed) (p kept : Pending) (r : Record)
      (t after : Tailer)
      → p.body ≢ []
      → kept.target ≡ p.target
      → (o ≡ done → (s : Record) × (after.emitted ≡ t.emitted ++ s ∷ []) × (s.body ≡ p.body))
      → let emptied : Pending = record kept { body = []; size = 0; lines = 0 } in
        let res = elim o as (λ o. Outcome × Tailer) [
          | failed f ↦ (failed f, after)
          | done ↦ (done, with_pending out key (append_line out now parsed emptied) after)
        ] in
        res.0 ≡ done → Follows p parsed.line t res.1
  unfolding append_line text_eq
  sends_parts (failed f) now parsed p kept r t after full same sent e = cc
  sends_parts done now parsed p kept r t after full same sent e =
      let emptied : Pending = record kept { body = []; size = 0; lines = 0 } in
      let next = append_line out now parsed emptied in
      let (s, emitted, body) = sent refl in
      (next, lookup-with_pending next after, same, inr (full, s, emitted, body, refl))

  sends :
      (now : Time) (parsed : Parsed) (p : Pending) (t : Tailer)
      → p.target.drop_levels ≡ []
      → p.body ≢ []
      → (send_and_append out now key parsed p t).0 ≡ done
      → Follows p parsed.line t (send_and_append out now key parsed p t).1
  unfolding send_and_append
  sends now parsed p t none_dropped full e =
      elim (Option-cases (prepared_record p.target p.body p.timestamp p.attributes)) [
        | inl bad ↦ let f = rw (bad, send_and_append) at e in cc
        | inr (r, made) ↦
            let kept : Pending = record p {
              attributes = written_to out p.attributes r.attributes;
            } in
            let held = with_pending out key kept t in
            let (drops, body) =
              not_dropped p.target p.body p.timestamp p.attributes r none_dropped made in
            rw (made, send_and_append)
              (sends_parts (emit_prepared out now r held).0 now parsed p kept r t
                (emit_prepared out now r held).1 full refl
                (λ ok.
                  let (s, emitted, same) = emit_follows now r held drops ok in
                  (s, emitted, same ∙ body))
                (rw (made, send_and_append) at e))
      ]

  was_full : (b empty : Bool) → (b && not empty) ≡ true → empty ≡ false
  was_full true false e = refl
  was_full true true e = cc
  was_full false empty e = cc

  pub multiline-Follows :
      (start : Option Regexp) (limits : Limits) (now : Time) (parsed : Parsed) (p : Pending)
      (t : Tailer)
      → p.target.drop_levels ≡ []
      → let res = elim start as (λ o. Outcome × Tailer) [
        | none ↦ (failed panic, with_pending out key p t)
        | some start ↦
            if (start.match_string parsed.line || over_limit out limits parsed.line p)
              && not (p.body == [])
            then send_and_append out now key parsed p t
            else (done, with_pending out key (append_line out now parsed p) t)
      ] in
        res.0 ≡ done → Follows p parsed.line t res.1
  multiline-Follows none limits now parsed p t drops e = cc
  multiline-Follows (some start) limits now parsed p t drops e =
      elim (Bool-cases (
        (start.match_string parsed.line || over_limit out limits parsed.line p)
        && not (p.body == []))) [
          | inl ends ↦ rw ends (
              sends now parsed p t drops (ne_of_eq_false (was_full _ (p.body == []) ends))
                (rw ends at e))
          | inr goes_on ↦ rw goes_on (continues now parsed p t)
        ]
