-- ===== src/Tailer/Read/Resuming.antt =====
-- internal/tailer/tailer.go, `read`: reading a file that grows, in several rounds.
use log_collector.Base.{
  ℕ, zero, suc, ◌+◌, ◌-◌, ◌≤◌, ◌<◌, ◌^◌, ◌≡◌, refl, ap, sym, subst, ◌∙◌, inl, inr, true, some,
  some-injective, List, [], ◌∷◌, ◌++◌, ltb, length, drop, arith, length-append, length-drop,
  append_assoc,
}
use log_collector.Base.Text.{Text}
use log_collector.Model.{FileTarget, Time}
use log_collector.Tailer.Lines.{ReadError, newline}
use log_collector.Tailer.Lines.Complete.{
  complete_lines, complete_lines-line, complete_lines-tail, line_or_tail,
}
use log_collector.Tailer.Accept.{Tailer, Limits, Outside, Failure, done, failed, accept}
use log_collector.Tailer.Read.{finished, not_accepted, Progress, read_loop}
use log_collector.Tailer.Read.Laws.{feed, line_text, Outcome-cases, read_loop-feed}

-- The bytes of some lines with their newlines.
abbrev total : List Text → ℕ
total [] = 0
total (l ∷ ls) = suc (length l + total ls)

drop-line :
    (body rest : Text) (n : ℕ) → drop (suc (length body + n)) (body ++ newline ∷ rest) ≡ drop n rest
drop-line [] rest n = let e : suc (0 + n) ≡ suc n = omega arith in rw e refl
drop-line (c ∷ body) rest n =
    let e : suc (suc (length body) + n) ≡ suc (suc (length body + n)) = omega arith in
    rw e (drop-line body rest n)

total_bounded : (fuel : ℕ) (s : Text) → length s < fuel → total (complete_lines s) ≤ length s
total_bounded zero s h = absurd (omega arith)
total_bounded (suc fuel) s h = elim (line_or_tail s) [
  | inl tail ↦ omega (arith, ap total (complete_lines-tail s tail))
  | inr (body, rest, clean, split) ↦
      let len = ap length split ∙ length-append body (newline ∷ rest) in
      let lines = ap total (ap complete_lines split ∙ complete_lines-line body rest clean) in
      omega (arith, len, lines, total_bounded fuel rest (omega (arith, len)))
]

-- The lines of a longer text: those of the text, and those behind them.
complete_lines-append :
    (fuel : ℕ) (s more : Text)
    → length s < fuel
    → complete_lines (s ++ more)
      ≡ complete_lines s ++ complete_lines (drop (total (complete_lines s)) (s ++ more))
complete_lines-append zero s more h = absurd (omega arith)
complete_lines-append (suc fuel) s more h = elim (line_or_tail s) [
  | inl tail ↦ rw (complete_lines-tail s tail) refl
  | inr (body, rest, clean, split) ↦
      let len = ap length split ∙ length-append body (newline ∷ rest) in
      let longer = complete_lines-append fuel rest more (omega (arith, len)) in
      let lines = complete_lines-line body rest clean in
      let all_lines = complete_lines-line body (rest ++ more) clean in
      subst
        (λ s.
          complete_lines (s ++ more)
          ≡ complete_lines s ++ complete_lines (drop (total (complete_lines s)) (s ++ more)))
        (sym split)
        (subst
          (λ w.
            complete_lines w
            ≡ complete_lines (body ++ newline ∷ rest)
              ++ complete_lines (drop (total (complete_lines (body ++ newline ∷ rest))) w))
          (sym (append_assoc body (newline ∷ rest) more))
          (rw (lines, all_lines, drop-line body (rest ++ more) (total (complete_lines rest)))
            (ap (◌∷◌ body) longer)))
]

module _ (out : Outside) (limits : Limits) (now : Time) (key : Text) (target : FileTarget) where
  never : (f : Failure) → not_accepted (failed f) ≡ finished → ⊥
  never f e = cc

  feed_at :
      (offset b c : ℕ) (ls : List Text) (t : Tailer)
      → b + total ls < limits.max_read_bytes
      → c + total ls < limits.max_read_bytes
      → feed out limits now key target offset b ls t ≡ feed out limits now key target offset c ls t
  unfolding feed
  feed_at offset b c [] t h k = refl
  feed_at offset b c (l ∷ ls) t h k =
      let more : ltb b limits.max_read_bytes ≡ true = ground arith in
      let more' : ltb c limits.max_read_bytes ≡ true = ground arith in
      let step = accept out limits now key target (line_text out limits now key target l) t in
      let rest =
        feed_at (offset + suc (length l)) (b + suc (length l)) (c + suc (length l)) ls step.1
          (omega arith) (omega arith) in
      elim (Outcome-cases step.0) [
        | inr (f, bad) ↦ rw (more, more', bad, feed) refl
        | inl fine ↦ rw (more, more', fine, feed) rest
      ]

  -- The bytes read before count only for the limit.
  feed_anew :
      (offset read_bytes : ℕ) (ls : List Text) (t : Tailer)
      → read_bytes + total ls < limits.max_read_bytes
      → feed out limits now key target offset read_bytes ls t
        ≡ feed out limits now key target offset 0 ls t
  feed_anew offset read_bytes ls t h = feed_at offset read_bytes 0 ls t h (omega arith)

  feed_done :
      (offset read_bytes : ℕ) (body : Text) (bodies : List Text) (t : Tailer)
      → read_bytes < limits.max_read_bytes
      → (accept out limits now key target (line_text out limits now key target body) t).0 ≡ done
      → feed out limits now key target offset read_bytes (body ∷ bodies) t
        ≡ feed out limits now key target
            (offset + suc (length body))
            (read_bytes + suc (length body))
            bodies
            (accept out limits now key target (line_text out limits now key target body) t).1
  unfolding feed
  feed_done offset read_bytes body bodies t h e =
      let more : ltb read_bytes limits.max_read_bytes ≡ true = ground arith in
      rw (more, e, feed) refl

  feed_failed :
      (offset read_bytes : ℕ) (body : Text) (bodies : List Text) (t : Tailer) (f : Failure)
      → read_bytes < limits.max_read_bytes
      → (accept out limits now key target (line_text out limits now key target body) t).0 ≡ failed f
      → (feed out limits now key target offset read_bytes (body ∷ bodies) t).outcome
        ≡ not_accepted (failed f)
  unfolding feed
  feed_failed offset read_bytes body bodies t f h e =
      let more : ltb read_bytes limits.max_read_bytes ≡ true = ground arith in
      rw (more, e, feed) refl

  -- Without an end before the limit, all lines are fed, and more lines go on where they end.
  feed-append :
      (offset read_bytes offset' : ℕ) (ls more : List Text) (t : Tailer)
      → read_bytes + total ls + total more < limits.max_read_bytes
      → offset' ≡ offset + total ls
      → let p = feed out limits now key target offset read_bytes ls t in
        p.outcome ≡ finished
        → (p.committed ≡ offset')
          × (feed out limits now key target offset read_bytes (ls ++ more) t
              ≡ feed out limits now key target offset' 0 more p.tailer)
  unfolding feed
  feed-append offset read_bytes offset' [] more t h e ok =
      let same : offset' ≡ offset = omega (arith, e) in
      (
        sym same,
        feed_anew offset read_bytes more t (omega arith)
            ∙ ap (λ o. feed out limits now key target o 0 more t) (sym same),
      )
  feed-append offset read_bytes offset' (l ∷ ls) more t h e ok =
      let step = accept out limits now key target (line_text out limits now key target l) t in
      let room : read_bytes < limits.max_read_bytes = omega arith in
      elim (Outcome-cases step.0) [
        | inr (f, bad) ↦
            let g = sym (feed_failed offset read_bytes l ls t f room bad) ∙ ok in absurd (never f g)
        | inl fine ↦
            let next = offset + suc (length l) in
            let bytes_read = read_bytes + suc (length l) in
            let goes = feed_done offset read_bytes l ls t room fine in
            let (committed, longer) =
              feed-append next bytes_read offset' ls more step.1 (omega arith) (omega (arith, e))
                (sym (ap (λ p. p.outcome) goes) ∙ ok) in
            (
              ap (λ p. p.committed) goes ∙ committed,
              feed_done offset read_bytes l (ls ++ more) t room fine
                  ∙ longer
                  ∙ ap (λ p. feed out limits now key target offset' 0 more p.tailer) (sym goes),
            )
      ]

  -- A file that grows is read the same in two rounds as in one: when the loop of read has ended
  -- without an error on what a file holds, reading on from the offset that it commits, in the
  -- file grown longer, does exactly what reading the longer file at once from the first offset
  -- does, to the records, the pending ones and the offset. The committed offset is not beyond
  -- what was read, and all that is left of the file is below the limit of a round and the line
  -- limit is below 2^61.
  pub read_loop_resumes :
      (offset : ℕ) (failure failure' : ReadError) (s more : Text) (t : Tailer) (p : Progress)
      → limits.max_log_size < 2 ^ 61
      → length s + length more < limits.max_read_bytes
      → read_loop out limits now key target
          (suc (length s))
          offset
          0
          (record { rest = s; failure = failure })
          t
        ≡ some p
      → p.outcome ≡ finished
      → let rest = drop (p.committed - offset) (s ++ more) in
        (p.committed ≤ offset + length s)
        × (read_loop out limits now key target
              (suc (length (s ++ more)))
              offset
              0
              (record { rest = s ++ more; failure = failure' })
              t
            ≡ read_loop out limits now key target
                (suc (length rest))
                p.committed
                0
                (record { rest = rest; failure = failure' })
                p.tailer)
  read_loop_resumes offset failure failure' s more t p small room first ok =
      let lines = complete_lines s in
      let n = total lines in
      let q = feed out limits now key target offset 0 lines t in
      let same : q ≡ p = some-injective _ _ (
        sym (
          read_loop-feed out limits now key target (suc (length s)) offset 0 failure s t small
            (omega arith))
        ∙ first) in
      let rest = drop n (s ++ more) in
      let within = total_bounded (suc (length s)) s (omega arith) in
      let after = total_bounded (suc (length rest)) rest (omega arith) in
      let left = length-drop n (s ++ more) in
      let both = length-append s more in
      let (committed, longer) =
        feed-append offset 0 (offset + n) lines (complete_lines rest) t
          (omega (arith, within, after, left, both)) refl (ap (λ p. p.outcome) same ∙ ok) in
      let at_end : p.committed ≡ offset + n = ap (λ p. p.committed) (sym same) ∙ committed in
      let gone : p.committed - offset ≡ n = omega (arith, at_end) in
      (
        omega (arith, at_end, within),
        rw gone (
            read_loop-feed out limits now key target (suc (length (s ++ more))) offset 0 failure'
              (s ++ more) t small (omega arith)
            ∙ ap (λ ls. some (feed out limits now key target offset 0 ls t))
                (complete_lines-append (suc (length s)) s more (omega arith))
            ∙ ap some longer
            ∙ ap
                (λ p.
                  some
                    (feed out limits now key target (offset + n) 0 (complete_lines rest) p.tailer))
                same
            ∙ ap (λ o. some (feed out limits now key target o 0 (complete_lines rest) p.tailer))
                (sym at_end)
            ∙ sym (
                read_loop-feed out limits now key target (suc (length rest)) p.committed 0 failure'
                  rest p.tailer small (omega arith))),
      )
