-- ===== src/Reload.antt =====
-- internal/reload/watcher.go: `Run`, the debounce of file events. The select of the loop takes one of
-- the cases that are ready; a run is the sequence of the cases taken, each with the time of a clock
-- that never goes back, among which the timer elapses. `clean` is `filepath.Clean`; the loop ends where
-- the sequence does. Times are in nanoseconds.
pub mod Laws
pub mod Runs
pub mod Tests
use log_collector.Base.{
  ℕ, suc, ◌+◌, ◌*◌, Bool, true, false, ◌&&◌, ◌||◌, not, Option, none, some, List, [], ◌∷◌, ◌==◌,
  text_eq, leb, if◌then◌else◌,
}
use log_collector.Base.Options.{◌>>=◌}
use log_collector.Base.Text.{Text}

-- `debounceDelay`
abbrev pub debounce_delay : ℕ
debounce_delay = 300 * 1000000

-- A `time.Timer`: when it elapses, if it runs, and whether its channel holds a value.
pub record Timer : Type 0 where
  pub deadline : Option ℕ
  pub pending : Bool

-- An event of fsnotify, with the three operations that are asked for.
pub record FsEvent : Type 0 where
  pub name : Text
  pub is_write : Bool
  pub is_create : Bool
  pub is_rename : Bool

-- The state of `Run`; `armed` says that `timerC` is not nil, and `calls` counts the calls of onChange.
pub record Loop : Type 0 where
  pub timer : Option Timer
  pub armed : Bool
  pub calls : ℕ

abbrev pub new_loop : Loop
new_loop = record { timer = none; armed = false; calls = 0 }

-- A case of the select, or the timer of the runtime.
pub data Case : Type 0 where
  event : FsEvent → Case
  watcher_error elapse fire : Case

unfoldable pub is_change : (Text → Text) → Text → FsEvent → Bool
is_change clean path e = (clean e.name == path) && (e.is_write || e.is_create || e.is_rename)

-- `Stop`, and the channel emptied where that came too late.
unfoldable pub stop_timer : Timer → Timer
stop_timer t = elim t.deadline [
  | some d ↦ record t { deadline = none }
  | none ↦ if t.pending then record t { pending = false } else t
]

-- The timer started, or started again.
unfoldable pub restart : ℕ → Option Timer → Timer
unfolding stop_timer
restart now none = record { deadline = some (now + debounce_delay); pending = false }
restart now (some t) = record (stop_timer t) { deadline = some (now + debounce_delay) }

unfoldable pub on_event : (Text → Text) → Text → ℕ → FsEvent → Loop → Loop
unfolding is_change restart
on_event clean path now e l =
    if not (is_change clean path e)
    then l
    else record l { timer = some (restart now l.timer); armed = true }

-- The runtime puts a value in the channel of a timer that elapses.
unfoldable pub on_elapse : ℕ → Loop → Option Loop
on_elapse now l = do
  t ← l.timer
  d ← t.deadline
  if leb d now
      then some (record l { timer = some (record { deadline = none; pending = true }) })
      else none

unfoldable pub on_timer : Loop → Option Loop
on_timer l = l.timer >>= (λ t.
    if l.armed && t.pending
    then some
        (record { timer = some (record t { pending = false }); armed = false; calls = suc l.calls })
    else none)

-- One step; none where the case is not ready.
unfoldable pub take_case : (Text → Text) → Text → ℕ → Case → Loop → Option Loop
unfolding on_event on_elapse on_timer
take_case clean path now (event e) l = some (on_event clean path now e l)
take_case clean path now watcher_error l = some l
take_case clean path now elapse l = on_elapse now l
take_case clean path now fire l = on_timer l

-- `Run`
unfoldable pub run_watcher : (Text → Text) → Text → List (ℕ × Case) → Loop → Option Loop
unfolding take_case
run_watcher clean path [] l = some l
run_watcher clean path ((now, c) ∷ cs) l = do
  l' ← take_case clean path now c l
  run_watcher clean path cs l'
