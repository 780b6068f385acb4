-- ===== src/Tailer/Read/Laws.antt =====
-- internal/tailer/tailer.go: the loop of `read`, and its specification over the complete lines.
use log_collector.Base.{
  ℕ, zero, suc, ◌+◌, ◌<◌, ◌^◌, ◌≡◌, refl, ap, sym, ◌∙◌, inl, inr, ◌⊎◌, Bool, true, false, not, ◌&&◌,
  ◌||◌, some, List, [], ◌∷◌, ◌++◌, ltb, length, if◌then◌else◌, arith, Bool-cases, length-append,
}
use log_collector.Base.Text.{Text}
use log_collector.Model.{FileTarget, Time}
use log_collector.Tailer.Lines.{ReadError, newline, truncate_runes}
use log_collector.Tailer.Lines.Laws.{NoNewline, trim_return}
use log_collector.Tailer.Lines.Reading.{read_bounded_line-line, read_bounded_line-tail}
use log_collector.Tailer.Lines.Complete.{
  complete_lines, complete_lines-line, complete_lines-tail, line_or_tail,
}
use log_collector.Tailer.Accept.{Tailer, Limits, Outside, Outcome, Failure, done, failed, accept}
use log_collector.Tailer.Read.{buffer_size, finished, not_accepted, Progress, read_loop}

or_true : (b : Bool) → (b || true) ≡ true
or_true true = refl
or_true false = refl

and_false : (b : Bool) → (b && false) ≡ false
and_false true = refl
and_false false = refl

pub Outcome-cases : (o : Outcome) → (o ≡ done) ⊎ ((f : Failure) × (o ≡ failed f))
Outcome-cases done = inl refl
Outcome-cases (failed f) = inr (f, refl)

module _ (out : Outside) (limits : Limits) (now : Time) (key : Text) (target : FileTarget) where
  -- The text of a line as it is handed on.
  abbrev pub line_text : Text → Text
  line_text body = truncate_runes (trim_return body) limits.max_log_size

  stop : ℕ → Tailer → Progress
  stop offset t = record { outcome = finished; committed = offset; tailer = t }

  -- Lines are handed on in order until the limit of the round is reached or one is not accepted;
  -- the offset moves on by each accepted line and its newline.
  unfoldable pub feed : ℕ → ℕ → List Text → Tailer → Progress
  unfolding stop
  feed offset read_bytes [] t = stop offset t
  feed offset read_bytes (body ∷ bodies) t =
      if not (ltb read_bytes limits.max_read_bytes)
      then stop offset t
      else (let (outcome, t') = accept out limits now key target (line_text body) t in
          let rest : Progress =
            feed (offset + suc (length body)) (read_bytes + suc (length body)) bodies t' in
          elim outcome [
            | failed f ↦ record {
              outcome = not_accepted (failed f);
              committed = offset;
              tailer = t';
            }
            | done ↦ rest
          ])

  read_loop-tail :
      (fuel offset read_bytes : ℕ) (failure : ReadError) (s : Text) (t : Tailer)
      → limits.max_log_size < 2 ^ 61
      → NoNewline s
      → read_loop out limits now key target
          (suc fuel)
          offset
          read_bytes
          (record { rest = s; failure = failure })
          t
        ≡ some (stop offset t)
  unfolding read_loop stop
  read_loop-tail fuel offset read_bytes failure s t small h =
      elim (Bool-cases (ltb read_bytes limits.max_read_bytes)) [
        | inr spent ↦ rw spent refl
        | inl room ↦
            rw
              (
                room,
                read_bounded_line-tail buffer_size limits.max_log_size failure s (omega arith) small
                    h,
                or_true,
              )
              refl
      ]

  read_loop-line :
      (fuel offset read_bytes : ℕ) (failure : ReadError) (body rest : Text) (t : Tailer)
      → limits.max_log_size < 2 ^ 61
      → NoNewline body
      → ((t' : Tailer)
          → read_loop out limits now key target fuel
              (offset + suc (length body))
              (read_bytes + suc (length body))
              (record { rest = rest; failure = failure })
              t'
            ≡ some (
                feed
                  (offset + suc (length body))
                  (read_bytes + suc (length body))
                  (complete_lines rest)
                  t'))
      → read_loop out limits now key target
          (suc fuel)
          offset
          read_bytes
          (record { rest = body ++ newline ∷ rest; failure = failure })
          t
        ≡ some (feed offset read_bytes (body ∷ complete_lines rest) t)
  unfolding read_loop feed stop
  read_loop-line fuel offset read_bytes failure body rest t small h later =
      elim (Bool-cases (ltb read_bytes limits.max_read_bytes)) [
        | inr spent ↦ rw spent refl
        | inl room ↦
            let text : Text = line_text body in
            elim (Outcome-cases (accept out limits now key target text t).0) [
              | inr (f, e) ↦
                  rw
                    (
                      room,
                      read_bounded_line-line buffer_size limits.max_log_size failure body rest
                          (omega arith) small h,
                      and_false,
                      e,
                    )
                    refl
              | inl e ↦
                  rw
                    (
                      room,
                      read_bounded_line-line buffer_size limits.max_log_size failure body rest
                          (omega arith) small h,
                      and_false,
                      e,
                    )
                    (later (accept out limits now key target text t).1)
            ]
      ]

  -- With more fuel than bytes left and a line limit below 2^61, the loop of read ends, and hands
  -- on exactly the complete lines of the file, in order, each cut to the line limit, until the
  -- round limit or a line that is not accepted; the offset it commits lies behind the last
  -- accepted line, never inside an incomplete one.
  pub read_loop-feed :
      (fuel offset read_bytes : ℕ) (failure : ReadError) (s : Text) (t : Tailer)
      → limits.max_log_size < 2 ^ 61
      → length s < fuel
      → read_loop out limits now key target fuel offset read_bytes
          (record { rest = s; failure = failure })
          t
        ≡ some (feed offset read_bytes (complete_lines s) t)
  unfolding feed
  read_loop-feed zero offset read_bytes failure s t small enough = absurd (omega arith)
  read_loop-feed (suc fuel) offset read_bytes failure s t small enough = elim (line_or_tail s) [
    | inl h ↦
        read_loop-tail fuel offset read_bytes failure s t small h
        ∙ ap (λ ls. some (feed offset read_bytes ls t)) (sym (complete_lines-tail s h))
    | inr (body, rest, h, split) ↦
        ap
          (λ x.
            read_loop out limits now key target (suc fuel) offset read_bytes
              (record { rest = x; failure = failure }) t)
          split
        ∙ read_loop-line fuel offset read_bytes failure body rest t small h (λ t'.
          read_loop-feed fuel _ _ failure rest t' small
            (omega (arith, ap length split, length-append body (newline ∷ rest))))
        ∙ ap (λ ls. some (feed offset read_bytes ls t))
            (sym (ap complete_lines split ∙ complete_lines-line body rest h))
  ]
