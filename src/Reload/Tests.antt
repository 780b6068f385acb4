-- ===== src/Reload/Tests.antt =====
-- The debounce at a concrete run: two events, of which the second restarts the timer.
use log_collector.Base.{
  ℕ, ◌+◌, ◌≡◌, refl, true, false, none, some, List, [], ◌∷◌, text_eq, nat_eq, arith,
}
use log_collector.Base.Text.{Text}
use log_collector.Reload.{
  FsEvent, Loop, Case, event, elapse, fire, new_loop, is_change, run_watcher, debounce_delay,
}
use log_collector.Reload.Laws.{IsDebounced}
use log_collector.Reload.Runs.{CallsNext, run_watcher-IsDebounced, run_watcher_calls}

abbrev same_path : Text → Text
same_path p = p

abbrev written : FsEvent
written = record { name = b'c' ∷ []; is_write = true; is_create = false; is_rename = false }

abbrev two_writes : List (ℕ × Case)
two_writes = (5, event written) ∷ (9, event written) ∷ []

abbrev after_two : Loop
after_two = record {
  timer = some (record { deadline = some (9 + debounce_delay); pending = false });
  armed = true;
  calls = 0;
}

runs_two : run_watcher same_path (b'c' ∷ []) two_writes new_loop ≡ some after_two
unfolding run_watcher text_eq
runs_two = refl

abbrev late : ℕ
late = 400000000

abbrev one_call : List (ℕ × Case)
one_call = (5, event written) ∷ (9, event written) ∷ (late, elapse) ∷ (late, fire) ∷ []

abbrev after_call : Loop
after_call = record {
  timer = some (record { deadline = none; pending = false });
  armed = false;
  calls = 1;
}

runs_one : run_watcher same_path (b'c' ∷ []) one_call new_loop ≡ some after_call
unfolding run_watcher text_eq
runs_one = refl

run_watcher-IsDebounced_example : IsDebounced same_path (b'c' ∷ []) none one_call
run_watcher-IsDebounced_example =
    run_watcher-IsDebounced same_path (b'c' ∷ []) one_call after_call
      (omega arith, (omega arith, (omega arith, (omega arith, tt)))) runs_one

run_watcher_calls_example : CallsNext same_path (b'c' ∷ []) late after_two
unfolding is_change text_eq
run_watcher_calls_example =
    run_watcher_calls same_path (b'c' ∷ []) two_writes after_two 9 late
      (omega arith, (omega arith, tt)) runs_two refl (omega arith)
