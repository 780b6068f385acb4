-- ===== src/Reload/Runs.antt =====
-- internal/reload/watcher.go, `Run`: when it calls onChange, over whole runs.
use log_collector.Base.{
  some-injective, none-ne-some, ℕ, suc, ◌+◌, ◌≤◌, ◌≡◌, refl, ◌⊎◌, inl, inr, Bool, true, false,
  Option, none, some, List, [], ◌∷◌, leb, Option-cases, subst, arith,
}
use log_collector.Base.Text.{Text}
use log_collector.Reload.{
  Timer, Loop, Case, elapse, fire, new_loop, debounce_delay, on_elapse, on_timer, take_case,
  run_watcher,
}
use log_collector.Reload.Laws.{due_after, due, IsDebounced, IsInv, with_timer, take_case-IsInv}

-- The times of a sequence never go back.
abbrev pub IsOrdered : ℕ → List (ℕ × Case) → Type 0
IsOrdered now [] = Unit
IsOrdered now ((n, c) ∷ cs) = (now ≤ n) × IsOrdered n cs

module _ (clean : Text → Text) (path : Text) where
  -- The time of the last step.
  abbrev pub last_time : ℕ → List (ℕ × Case) → ℕ
  last_time now [] = now
  last_time now ((n, c) ∷ cs) = last_time n cs

  run-IsInv :
      (d : Option ℕ) (now : ℕ) (cs : List (ℕ × Case)) (l l' : Loop)
      → IsOrdered now cs
      → IsInv d now l
      → run_watcher clean path cs l ≡ some l'
      → IsDebounced clean path d cs × IsInv (due clean path d cs) (last_time now cs) l'
  unfolding run_watcher
  run-IsInv d now [] l l' o h e = (tt, subst (IsInv d now) (some-injective _ _ e) h)
  run-IsInv d now ((n, c) ∷ cs) l l' (le, o) h e =
      elim (Option-cases (take_case clean path n c l)) [
        | inl stuck ↦ absurd (none-ne-some _ (rw stuck at e))
        | inr (m, step) ↦
            let (call, inv) = take_case-IsInv clean path d now n c l m le h step in
            let (rest, last) =
              run-IsInv (due_after clean path d n c) n cs m l' o inv (rw step at e) in
            ((call, rest), last)
      ]

  -- In every run of the watcher, in whatever order its cases come, each call of onChange is for a
  -- change of the file, answers all changes since the call before, and comes when the file has
  -- been quiet for the delay since the last of them. The clock does not go back.
  pub run_watcher-IsDebounced :
      (cs : List (ℕ × Case)) (l : Loop)
      → IsOrdered 0 cs
      → run_watcher clean path cs new_loop ≡ some l
      → IsDebounced clean path none cs
  run_watcher-IsDebounced cs l o e = (run-IsInv none 0 cs new_loop l o (refl, tt) e).0

  -- The call is the only step of the timer that is ready.
  abbrev pub CallsNow : ℕ → Loop → Type 0
  CallsNow n l =
      (take_case clean path n elapse l ≡ none)
      × (l' : Loop) × (take_case clean path n fire l ≡ some l')
      × (l'.calls ≡ suc l.calls)
      × (l'.armed ≡ false)

  -- The call is next, or the timer elapses first, and then it is.
  abbrev pub CallsNext : ℕ → Loop → Type 0
  CallsNext n l =
      CallsNow n l
      ⊎ ((take_case clean path n fire l ≡ none)
          × (m : Loop) × (take_case clean path n elapse l ≡ some m)
          × (m.calls ≡ l.calls)
          × CallsNow n m)

  parts-CallsNext :
      (t now n : ℕ) (deadline : Option ℕ) (pending armed : Bool) (calls : ℕ)
      → IsInv (some t) now (with_timer clean path deadline pending armed calls)
      → t + debounce_delay ≤ n
      → CallsNext n (with_timer clean path deadline pending armed calls)
  unfolding take_case on_elapse on_timer
  parts-CallsNext t now n deadline pending armed calls (a, inl (h, k)) le =
      let past : leb (t + debounce_delay) n ≡ true = ground arith in
      rw (a, h, k, past) (inr (refl, _, refl, refl, (refl, _, refl, refl, refl)))
  parts-CallsNext t now n deadline pending armed calls (a, inr (h, k, _)) le =
      rw (a, h, k) (inl (refl, _, refl, refl, refl))

  timer-CallsNext :
      (t now n : ℕ) (timer : Option Timer) (armed : Bool) (calls : ℕ)
      → IsInv (some t) now (record { timer = timer; armed = armed; calls = calls })
      → t + debounce_delay ≤ n
      → CallsNext n (record { timer = timer; armed = armed; calls = calls })
  timer-CallsNext t now n none armed calls (a, h) le = absurd h
  timer-CallsNext t now n (some x) armed calls h le =
      parts-CallsNext t now n x.deadline x.pending armed calls h le

  -- At every point of a run of the watcher at which a change is due, and from the delay after it
  -- on, exactly one step of the timer is ready: either the call of onChange, or the elapse of the
  -- timer, and behind that the call, without the elapse. The call counts one, and no timer is
  -- armed then. An event may still be taken before them.
  pub run_watcher_calls :
      (cs : List (ℕ × Case)) (l : Loop) (t n : ℕ)
      → IsOrdered 0 cs
      → run_watcher clean path cs new_loop ≡ some l
      → due clean path none cs ≡ some t
      → t + debounce_delay ≤ n
      → CallsNext n l
  run_watcher_calls cs l t n o e changed quiet =
      let (_, inv) = run-IsInv none 0 cs new_loop l o (refl, tt) e in
      let last = last_time 0 cs in
      timer-CallsNext t last n l.timer l.armed l.calls (subst (λ d. IsInv d last l) changed inv)
        quiet
