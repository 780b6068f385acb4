-- ===== src/Tailer/Flush.antt =====
-- internal/tailer/tailer.go: `flushExpired` and `Close`. The map of pending entries is ranged over in
-- the order of its list.
use log_collector.Base.{
  Bool, not, ◌&&◌, Option, none, some, List, [], ◌∷◌, ◌==◌, text_eq, if◌then◌else◌,
}
use log_collector.Base.Int.{ℤ, pos, ◌-ℤ◌, leb_ℤ, int_eq}
use log_collector.Base.Dict.{Dict, erase}
use log_collector.Base.Text.{Text}
use log_collector.Model.{Record, Time}
use log_collector.Tailer.Records.{prepared_record}
use log_collector.Tailer.Accept.{
  Pending, Outside, Tailer, Outcome, done, failed, panic, written_to, emit_prepared,
}

module _ (out : Outside) where
  -- `after <= 0` stands for five seconds.
  unfoldable pub flush_delay : Pending → ℤ
  flush_delay p =
      if leb_ℤ p.target.multiline.flush_after (pos 0)
      then pos 5_000_000_000
      else p.target.multiline.flush_after

  unfoldable pub is_expired : Time → Pending → Bool
  unfolding flush_delay
  is_expired now p = leb_ℤ (flush_delay p) (now -ℤ p.updated) && not (p.body == [])

  -- The records of the expired entries, with the maps that `preparedRecord` has written to.
  unfoldable pub collect : Time → Dict Pending → Option (List (Text × Record) × Dict Pending)
  unfolding is_expired
  collect now [] = some ([], [])
  collect now ((key, p) ∷ entries) = elim (collect now entries) [
    | none ↦ none
    | some (items, rest) ↦
        if is_expired now p
        then elim (prepared_record p.target p.body p.timestamp p.attributes) [
          | none ↦ none
          | some r ↦ some (
            (key, r) ∷ items,
            (key, record p { attributes = written_to out p.attributes r.attributes }) ∷ rest,
          )
        ]
        else some (items, (key, p) ∷ rest)
  ]

  -- The loop that sends them: an entry is deleted when its record is taken.
  unfoldable pub send_all : Time → List (Text × Record) → Tailer → Outcome × Tailer
  unfolding emit_prepared
  send_all now [] t = (done, t)
  send_all now ((key, r) ∷ items) t =
      let (outcome, t') = emit_prepared out now r t in
      elim outcome [
        | failed f ↦ (failed f, t')
        | done ↦ send_all now items (record t' { pending = erase key t'.pending })
      ]

  -- `flushExpired`
  unfoldable pub flush_expired : Time → Tailer → Outcome × Tailer
  unfolding collect send_all
  flush_expired now t = elim (collect now t.pending) [
    | none ↦ (failed panic, t)
    | some (items, pending) ↦ send_all now items (record t { pending = pending })
  ]

  -- The records that `Close` sends.
  unfoldable pub remaining : Dict Pending → Option (List (Text × Record))
  remaining [] = some []
  remaining ((key, p) ∷ entries) = elim (remaining entries) [
    | none ↦ none
    | some items ↦
        if p.body == []
        then some items
        else elim (prepared_record p.target p.body p.timestamp p.attributes) [
          | none ↦ none
          | some r ↦ some ((key, r) ∷ items)
        ]
  ]

  -- `Close`, up to the final `Save`: the table is emptied before anything is sent.
  unfoldable pub close : Time → Tailer → Outcome × Tailer
  unfolding remaining send_all
  close now t = elim (remaining t.pending) [
    | none ↦ (failed panic, t)
    | some items ↦ send_all now items (record t { pending = [] })
  ]
