-- ===== src/Exporter/Queue.antt =====
-- internal/exporter/otlphttp.go: `Enqueue`, `reserveQueueBytes` and `releaseQueueBytes`, with the
-- channel between the producers and `Run`. A step is what one goroutine does at once; a producer
-- that finds no room tries again later.
pub mod Laws
use log_collector.Base.{
  ℕ, ◌+◌, ◌≤◌, ◌<◌, ◌≡◌, Bool, true, false, Option, none, some, List, [], ◌∷◌, ◌++◌, length, ltb,
  if◌then◌else◌,
}
use log_collector.Base.Int.{ℤ, pos, ◌+ℤ◌, ◌-ℤ◌, leb_ℤ, wrap64}
use log_collector.Model.{Record}
use log_collector.Exporter.Size.{record_size}

-- `MaxQueueBytes` and `QueueSize`, which `Validate` has found positive.
pub record QueueConfig : Type 0 where
  pub max_queue_bytes : ℕ
  pub queue_size : ℕ

-- One round of `reserveQueueBytes`: the new count, or none while there is no room.
unfoldable pub reserve_queue_bytes : QueueConfig → ℕ → ℤ → Option ℤ
reserve_queue_bytes cfg size queued =
    let next : ℤ = wrap64 (queued +ℤ pos size) in
    if leb_ℤ next (pos cfg.max_queue_bytes) then some next else none

-- `releaseQueueBytes`
unfoldable pub release_queue_bytes : ℕ → ℤ → ℤ
release_queue_bytes size queued = wrap64 (queued -ℤ pos size)

-- The channel's records, oldest first; the records whose bytes are reserved and that are not sent
-- yet; those that `Run` has received and whose bytes it has not released yet, oldest first; those
-- behind that, oldest first.
pub record Queue : Type 0 where
  pub queued_bytes : ℤ
  pub input : List Record
  pub reserved : List Record
  pub received : List Record
  pub taken : List Record

unfoldable pub empty : Queue
empty = record { queued_bytes = pos 0; input = []; reserved = []; received = []; taken = [] }

-- The first part of `Enqueue`: an error for a record that is too large, or a reservation, which
-- may have to wait.
pub data Entry : Type 0 where
  too_large waits : Entry
  entered : Queue → Entry

unfoldable pub enter : QueueConfig → Record → Queue → Entry
enter cfg r q =
    if ltb cfg.max_queue_bytes (record_size r)
    then too_large
    else elim (reserve_queue_bytes cfg (record_size r) q.queued_bytes) [
      | none ↦ waits
      | some n ↦ entered (record q { queued_bytes = n; reserved = r ∷ q.reserved })
    ]

-- The `select` of `Enqueue`, on the producer that stands first, where `turn` makes another one the
-- first; and the two actions with which a round of `Run` begins, between which producers go on: the
-- receive, and the release of the record's bytes.
pub data Step (cfg : QueueConfig) (q q' : Queue) : Type 0 where
  enqueue : (r : Record) → enter cfg r q ≡ entered q' → Step cfg q q'
  turn :
      (r : Record) (rs : List Record)
      → q.reserved ≡ r ∷ rs
      → q' ≡ record q { reserved = rs ++ r ∷ [] }
      → Step cfg q q'
  send :
      (r : Record) (rs : List Record)
      → q.reserved ≡ r ∷ rs
      → length q.input < cfg.queue_size
      → q' ≡ record q { reserved = rs; input = q.input ++ r ∷ [] }
      → Step cfg q q'
  cancel :
      (r : Record) (rs : List Record)
      → q.reserved ≡ r ∷ rs
      → q' ≡ record q {
        reserved = rs;
        queued_bytes = release_queue_bytes (record_size r) q.queued_bytes;
      }
      → Step cfg q q'
  receive :
      (r : Record) (rs : List Record)
      → q.input ≡ r ∷ rs
      → q.received ≡ []
      → q' ≡ record q { input = rs; received = r ∷ [] }
      → Step cfg q q'
  release :
      (r : Record) (rs : List Record)
      → q.received ≡ r ∷ rs
      → q' ≡ record q {
        received = rs;
        taken = q.taken ++ r ∷ [];
        queued_bytes = release_queue_bytes (record_size r) q.queued_bytes;
      }
      → Step cfg q q'

pub data Reach (cfg : QueueConfig) : Queue → Type 0 where
  start : Reach cfg empty
  next : {q q' : Queue} → Reach cfg q → Step cfg q q' → Reach cfg q'
