-- ===== src/Reload/Laws.antt =====
-- internal/reload/watcher.go, `Run`: when it calls onChange.
use log_collector.Base.{
  some-injective, none-ne-some, ℕ, ◌+◌, ◌≤◌, ◌≡◌, refl, sym, ◌⊎◌, inl, inr, Bool, true, false,
  Option, none, some, List, [], ◌∷◌, ◌==◌, text_eq, ◌&&◌, ◌||◌, leb, if◌then◌else◌, Bool-cases,
  subst, arith,
}
use log_collector.Base.Text.{Text}
use log_collector.Reload.{
  FsEvent, Timer, Loop, Case, event, watcher_error, elapse, fire, debounce_delay, is_change,
  stop_timer, restart, on_event, on_elapse, on_timer, take_case,
}

module _ (clean : Text → Text) (path : Text) where
  -- A write, a creation or a rename of the file.
  abbrev pub changes_file : FsEvent → Bool
  changes_file e = (clean e.name == path) && (e.is_write || e.is_create || e.is_rename)

  -- The time of the last change that no call of onChange has followed.
  abbrev pub due_after : Option ℕ → ℕ → Case → Option ℕ
  due_after due now (event e) = if changes_file e then some now else due
  due_after due now watcher_error = due
  due_after due now elapse = due
  due_after due now fire = none

  abbrev pub due : Option ℕ → List (ℕ × Case) → Option ℕ
  due d [] = d
  due d ((now, c) ∷ cs) = due (due_after d now c) cs

  -- onChange is called only for a change, and when the file has been quiet for the delay since it.
  abbrev pub IsCall : Option ℕ → ℕ → Case → Type 0
  IsCall d now fire = (t : ℕ) × (d ≡ some t) × (t + debounce_delay ≤ now)
  IsCall d now (event e) = Unit
  IsCall d now watcher_error = Unit
  IsCall d now elapse = Unit

  abbrev pub IsDebounced : Option ℕ → List (ℕ × Case) → Type 0
  IsDebounced d [] = Unit
  IsDebounced d ((now, c) ∷ cs) = IsCall d now c × IsDebounced (due_after d now c) cs

-- The timer runs, or has elapsed, for a change that is due; else it is at rest.
abbrev pub IsTimerFor : Option ℕ → ℕ → Option Timer → Type 0
IsTimerFor (some t) now none = ⊥
IsTimerFor (some t) now (some timer) =
    ((timer.deadline ≡ some (t + debounce_delay)) × (timer.pending ≡ false))
    ⊎ ((timer.deadline ≡ none) × (timer.pending ≡ true) × (t + debounce_delay ≤ now))
IsTimerFor none now none = Unit
IsTimerFor none now (some timer) = (timer.deadline ≡ none) × (timer.pending ≡ false)

abbrev pub is_due : Option ℕ → Bool
is_due none = false
is_due (some t) = true

abbrev pub IsInv : Option ℕ → ℕ → Loop → Type 0
IsInv d now l = (l.armed ≡ is_due d) × IsTimerFor d now l.timer

module _ (clean : Text → Text) (path : Text) where
  stop_clears :
      (d : Option ℕ) (now : ℕ) (t : Timer)
      → IsTimerFor d now (some t)
      → (stop_timer t).pending ≡ false
  unfolding stop_timer
  stop_clears none now t (e, f) = rw (e, f) refl
  stop_clears (some u) now t (inl (e, f)) = rw (e, f) refl
  stop_clears (some u) now t (inr (e, f, _)) = rw (e, f) refl

  restart-IsTimerFor :
      (d : Option ℕ) (now n : ℕ) (timer : Option Timer)
      → IsTimerFor d now timer
      → IsTimerFor (some n) n (some (restart n timer))
  unfolding restart
  restart-IsTimerFor d now n none h = inl (refl, refl)
  restart-IsTimerFor d now n (some t) h = inl (refl, stop_clears d now t h)

  later-IsTimerFor :
      (d : Option ℕ) (now n : ℕ) (timer : Option Timer)
      → now ≤ n
      → IsTimerFor d now timer
      → IsTimerFor d n timer
  later-IsTimerFor none now n none le h = tt
  later-IsTimerFor none now n (some t) le h = h
  later-IsTimerFor (some u) now n none le h = h
  later-IsTimerFor (some u) now n (some t) le (inl h) = inl h
  later-IsTimerFor (some u) now n (some t) le (inr (e, f, g)) = inr (e, f, omega arith)

  -- The loop with a timer.
  abbrev pub with_timer : Option ℕ → Bool → Bool → ℕ → Loop
  with_timer deadline pending armed calls = record {
    timer = some (record { deadline = deadline; pending = pending });
    armed = armed;
    calls = calls;
  }

  elapse_parts :
      (d deadline : Option ℕ) (now : ℕ) (pending armed : Bool) (calls : ℕ) (l' : Loop)
      → IsInv d now (with_timer deadline pending armed calls)
      → on_elapse now (with_timer deadline pending armed calls) ≡ some l'
      → IsInv d now l'
  unfolding on_elapse
  elapse_parts d none now pending armed calls l' h e = absurd (none-ne-some _ e)
  elapse_parts none (some u) now pending armed calls l' (a, (h, k)) e =
      absurd (none-ne-some _ (sym h))
  elapse_parts (some t) (some u) now pending armed calls l' (a, inr (h, k, past)) e =
      absurd (none-ne-some _ (sym h))
  elapse_parts (some t) (some u) now pending armed calls l' (a, inl (h, k)) e =
      elim (Bool-cases (leb u now)) [
        | inl past ↦
            let same : u ≡ t + debounce_delay = some-injective u (t + debounce_delay) h in
            subst (IsInv (some t) now) (some-injective _ _ (rw past at e))
              (a, inr (refl, refl, ground arith))
        | inr early ↦ absurd (none-ne-some _ (rw early at e))
      ]

  elapse-IsInv :
      (d : Option ℕ) (now : ℕ) (timer : Option Timer) (armed : Bool) (calls : ℕ) (l' : Loop)
      → IsInv d now (record { timer = timer; armed = armed; calls = calls })
      → on_elapse now (record { timer = timer; armed = armed; calls = calls }) ≡ some l'
      → IsInv d now l'
  unfolding on_elapse
  elapse-IsInv d now none armed calls l' h e = absurd (none-ne-some _ e)
  elapse-IsInv d now (some t) armed calls l' h e =
      elapse_parts d t.deadline now t.pending armed calls l' h e

  timer_parts :
      (d deadline : Option ℕ) (now : ℕ) (pending armed : Bool) (calls : ℕ) (l' : Loop)
      → IsInv d now (with_timer deadline pending armed calls)
      → on_timer (with_timer deadline pending armed calls) ≡ some l'
      → IsCall clean path d now fire × IsInv none now l'
  unfolding on_timer
  timer_parts d deadline now false false calls l' h e = absurd (none-ne-some _ e)
  timer_parts d deadline now true false calls l' h e = absurd (none-ne-some _ e)
  timer_parts d deadline now false true calls l' h e = absurd (none-ne-some _ e)
  timer_parts none deadline now true true calls l' (a, h) e = cc
  timer_parts (some t) deadline now true true calls l' (a, inl (h, k)) e = cc
  timer_parts (some t) deadline now true true calls l' (a, inr (h, k, past)) e =
      ((t, refl, past), subst (IsInv none now) (some-injective _ _ e) (refl, (h, refl)))

  timer-IsInv :
      (d : Option ℕ) (now : ℕ) (timer : Option Timer) (armed : Bool) (calls : ℕ) (l' : Loop)
      → IsInv d now (record { timer = timer; armed = armed; calls = calls })
      → on_timer (record { timer = timer; armed = armed; calls = calls }) ≡ some l'
      → IsCall clean path d now fire × IsInv none now l'
  unfolding on_timer
  timer-IsInv d now none armed calls l' h e = absurd (none-ne-some _ e)
  timer-IsInv d now (some t) armed calls l' h e =
      timer_parts d t.deadline now t.pending armed calls l' h e

  pub take_case-IsInv :
      (d : Option ℕ) (now n : ℕ) (c : Case) (l l' : Loop)
      → now ≤ n
      → IsInv d now l
      → take_case clean path n c l ≡ some l'
      → IsCall clean path d n c × IsInv (due_after clean path d n c) n l'
  unfolding take_case on_event is_change
  take_case-IsInv d now n (event ev) l l' le (a, h) e =
      elim (Bool-cases (changes_file clean path ev)) [
        | inl change ↦ (
          tt,
          rw change (
              subst (IsInv (some n) n) (some-injective _ _ (rw change at e))
                (refl, restart-IsTimerFor d now n l.timer h)),
        )
        | inr other ↦ (
          tt,
          rw other (
              subst (IsInv d n) (some-injective _ _ (rw other at e))
                (a, later-IsTimerFor d now n l.timer le h)),
        )
      ]
  take_case-IsInv d now n watcher_error l l' le (a, h) e =
      (tt, subst (IsInv d n) (some-injective _ _ e) (a, later-IsTimerFor d now n l.timer le h))
  take_case-IsInv d now n elapse l l' le (a, h) e =
      (tt, elapse-IsInv d n l.timer l.armed l.calls l' (a, later-IsTimerFor d now n l.timer le h) e)
  take_case-IsInv d now n fire l l' le (a, h) e =
      timer-IsInv d n l.timer l.armed l.calls l' (a, later-IsTimerFor d now n l.timer le h) e
