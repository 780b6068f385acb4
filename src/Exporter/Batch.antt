-- ===== src/Exporter/Batch.antt =====
-- internal/exporter/otlphttp.go: the loop of `Run`, which gathers the records it receives into
-- batches. `sendWithRetry` under a context is a function of the batches sent before and of the batch.
pub mod Laws
pub mod Steps
pub mod Delivery
use log_collector.Base.{
  ℕ, ◌+◌, ◌≤◌, ◌<◌, ◌≡◌, Bool, true, false, List, [], ◌∷◌, ◌++◌, length, ltb, leb, if◌then◌else◌,
  not, ◌&&◌, ◌||◌,
}
use log_collector.Base.Int.{ℤ, pos, ◌+ℤ◌, leb_ℤ, ltb_ℤ, wrap64}
use log_collector.Model.{Record}
use log_collector.Exporter.Size.{record_size}

-- `BatchSize` and `MaxBatchBytes`, which `Validate` has found positive.
pub record BatchConfig : Type 0 where
  pub batch_size : ℕ
  pub max_batch_bytes : ℕ

-- The variables of `Run`, with the batches sent so far, oldest first.
pub record Run : Type 0 where
  pub batch : List Record
  pub batch_bytes : ℤ
  pub sent : List (List Record)

unfoldable pub begin : Run
begin = record { batch = []; batch_bytes = pos 0; sent = [] }

-- Whether a send under a context succeeds.
abbrev pub Context : Type 0
Context = List (List Record) → List Record → Bool

pub data Outcome : Type 0 where
  running failed : Run → Outcome

unfoldable pub and_then : Outcome → (Run → Outcome) → Outcome
and_then (running s) f = f s
and_then (failed s) f = failed s

unfoldable pub is_empty : List Record → Bool
is_empty [] = true
is_empty (r ∷ rs) = false

-- `flush`
unfoldable pub flush : Context → Run → Outcome
flush send s =
    if is_empty s.batch
    then running s
    else if send s.sent s.batch
    then running (record { batch = []; batch_bytes = pos 0; sent = s.sent ++ s.batch ∷ [] })
    else failed s

-- The test of `appendRecord`, then the test after it in the receive of `Run`.
unfoldable pub is_full_for : BatchConfig → Record → Run → Bool
is_full_for cfg r s =
    not (is_empty s.batch)
    && (leb cfg.batch_size (length s.batch)
        || ltb_ℤ (pos cfg.max_batch_bytes) (wrap64 (s.batch_bytes +ℤ pos (record_size r))))

unfoldable pub is_full : BatchConfig → Run → Bool
is_full cfg s = leb cfg.batch_size (length s.batch) || leb_ℤ (pos cfg.max_batch_bytes) s.batch_bytes

unfoldable pub push : Record → Run → Run
push r s = record s {
  batch = s.batch ++ r ∷ [];
  batch_bytes = wrap64 (s.batch_bytes +ℤ pos (record_size r));
}

-- `appendRecord`
unfoldable pub append_record : BatchConfig → Context → Record → Run → Outcome
append_record cfg send r s =
    and_then (if is_full_for cfg r s then flush send s else running s) (λ t. running (push r t))

-- What wakes the loop: a record from the channel, or the ticker.
pub data Event : Type 0 where
  received : Record → Event
  tick : Event

-- The first two cases of the `select`.
unfoldable pub handle : BatchConfig → Context → Event → Run → Outcome
handle cfg send (received r) s =
    and_then (append_record cfg send r s) (λ t. if is_full cfg t then flush send t else running t)
handle cfg send tick s = flush send s

unfoldable pub run_loop : BatchConfig → Context → List Event → Run → Outcome
run_loop cfg send [] s = running s
run_loop cfg send (e ∷ es) s = and_then (handle cfg send e s) (run_loop cfg send es)

-- The draining loop over what the channel still holds.
unfoldable pub drain : BatchConfig → Context → List Record → Run → Outcome
drain cfg send [] s = running s
drain cfg send (r ∷ rs) s = and_then (append_record cfg send r s) (drain cfg send rs)

-- `Run`: the events until the context ends, then the records still queued, under the shutdown
-- context.
unfoldable pub run : BatchConfig → Context → Context → List Event → List Record → Outcome
run cfg send shutdown es rs =
    and_then (run_loop cfg send es begin) (λ s. and_then (drain cfg shutdown rs s) (flush shutdown))
