-- ===== src/Exporter/Tests.antt =====
-- The exporter's theorems at concrete inputs.
use log_collector.Config.{RetryConfig}
use log_collector.Exporter.Retry.{
  Attempt, delivered, status_error, success, decide, pause, is_permanent, is_exhausted,
  send_with_retry,
}
use log_collector.Exporter.Retry.Laws.{IsInitial, IsCall, send_with_retry-IsCall}
use log_collector.Base.{
  text_eq, true, List, ℕ_discrete, ℕ, ◌≡◌, ◌<◌, ◌^◌, refl, false, none, [], ◌∷◌, arith, leb, length,
}
use log_collector.Base.Int.{ℤ, pos, wrap64, ◌+ℤ◌}
use log_collector.Base.Dict.{Dict, lookup, NodupKeys}
use log_collector.Base.Text.{Text}
use log_collector.Exporter.Request.{group_all, attribute_key}
use log_collector.Exporter.Request.Keys.{HasNoNul, attribute_key-injective}
use log_collector.Exporter.Request.Laws.{of_key, group_of, group_all_lem}
use log_collector.Model.{Record, Time, zero_time}
use log_collector.Exporter.Size.{record_size}
use log_collector.Exporter.Queue.{
  QueueConfig, Queue, empty, enter, reserve_queue_bytes, Step, enqueue, send, receive, start, next,
}
use log_collector.Exporter.Queue.Laws.{IsExact, Reach-IsExact}
use log_collector.Exporter.Batch.{BatchConfig, Context, received, tick, run}
use log_collector.Exporter.Batch.Delivery.{Delivers, run-Delivers}

abbrev line : Record
line = record {
  body = b'a' ∷ [];
  timestamp = zero_time;
  observed_timestamp = zero_time;
  severity_text = [];
  severity_number = 0;
  dropped = false;
  trace_id = [];
  attributes = none;
  resource_attributes = [];
  resource_key = [];
}

abbrev queue_config : QueueConfig
queue_config = record { max_queue_bytes = 200; queue_size = 1 }

abbrev one_reserved : Queue
one_reserved = record {
  queued_bytes = pos 129;
  input = [];
  reserved = line ∷ [];
  received = [];
  taken = [];
}

abbrev one_queued : Queue
one_queued = record one_reserved { input = line ∷ []; reserved = [] }

abbrev one_received : Queue
one_received = record one_queued { input = []; received = line ∷ [] }

reserves : Step queue_config empty one_reserved
unfolding enter reserve_queue_bytes record_size empty wrap64 ◌+ℤ◌
reserves = enqueue line refl

sends : Step queue_config one_reserved one_queued
sends = send line [] refl (omega arith) refl

receives : Step queue_config one_queued one_received
receives = receive line [] refl refl refl

Reach-IsExact_example : IsExact queue_config one_received
Reach-IsExact_example =
    Reach-IsExact queue_config one_received (omega arith)
      (next (next (next start reserves) sends) receives)

abbrev batch_config : BatchConfig
batch_config = record { batch_size = 2; max_batch_bytes = 150 }

-- The second batch is not taken.
abbrev one_batch : Context
one_batch sent batch = leb (length sent) 0

small : record_size line < 2 ^ 62
unfolding record_size
small = omega arith

run-Delivers_example :
    Delivers batch_config
      (line ∷ line ∷ line ∷ [])
      (run batch_config one_batch one_batch (received line ∷ tick ∷ received line ∷ []) (line ∷ []))
run-Delivers_example =
    run-Delivers batch_config one_batch one_batch (received line ∷ tick ∷ received line ∷ [])
      (line ∷ []) (omega arith) (omega arith) (small, (small, (small, tt)))

abbrev other_line : Record
other_line = record line { resource_key = b'k' ∷ [] }

abbrev nano : Time → ℕ
nano t = 7

group_all_lem_example :
    NodupKeys (group_all nano (line ∷ other_line ∷ line ∷ []) [])
    × (lookup (b'k' ∷ []) (group_all nano (line ∷ other_line ∷ line ∷ []) [])
        ≡ group_of nano (of_key nano (b'k' ∷ []) (line ∷ other_line ∷ line ∷ [])))
group_all_lem_example = group_all_lem nano (b'k' ∷ []) (line ∷ other_line ∷ line ∷ [])

-- The labels of a container, in another order each time.
abbrev labels : Dict Text
labels = (b'a' ∷ [], b'x' ∷ []) ∷ (b'b' ∷ [], b'y' ∷ []) ∷ []

abbrev labels_turned : Dict Text
labels_turned = (b'b' ∷ [], b'y' ∷ []) ∷ (b'a' ∷ [], b'x' ∷ []) ∷ []

one_byte : (c : ℕ) → 0 < c → HasNoNul (c ∷ [])
one_byte c h = ((λ e. omega (arith, h, e)), tt)

attribute_key-injective_example : lookup (b'a' ∷ []) labels ≡ lookup (b'a' ∷ []) labels_turned
unfolding lookup attribute_key text_eq
attribute_key-injective_example =
    let a = one_byte b'a' (omega arith) in
    let b = one_byte b'b' (omega arith) in
    let x = one_byte b'x' (omega arith) in
    let y = one_byte b'y' (omega arith) in
    attribute_key-injective labels labels_turned (b'a' ∷ []) (refl, (refl, tt)) (refl, (refl, tt))
      ((a, x), ((b, y), tt)) ((b, y), ((a, x), tt)) refl

abbrev retry_config : RetryConfig
retry_config = record { enabled = true; initial = pos 0; max_interval = pos 0; max_elapsed = pos 0 }

-- A gateway that is busy and then takes the batch.
abbrev attempts : List Attempt
attempts =
    record { result = status_error 503 (pos 0); elapsed = pos 1; cancelled = false }
    ∷ record { result = delivered; elapsed = pos 2; cancelled = false }
    ∷ []

send_with_retry-IsCall_example :
    let (v, waits) = send_with_retry (λ z. z) retry_config attempts in
    (delay : ℤ) × IsInitial (λ z. z) retry_config delay
    × IsCall (λ z. z) retry_config delay attempts v waits
send_with_retry-IsCall_example = send_with_retry-IsCall (λ z. z) retry_config attempts

send_with_retry_test :
    send_with_retry (λ z. z) retry_config attempts ≡ (success, pos 1_000_000_000 ∷ [])
unfolding send_with_retry decide pause is_permanent is_exhausted ◌+ℤ◌ wrap64 ℕ_discrete
send_with_retry_test = refl
