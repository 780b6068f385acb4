-- ===== src/Tailer/Accept.antt =====
-- internal/tailer/tailer.go: `accept`, `emitRecord` and `emitPrepared`, on
-- the tailer's state. The records that `emit` took stand in `emitted`, oldest first; whether it takes
-- a record is the environment's choice, by the history. `now` stands for the clock's readings in one
-- call. The reads of one poll are modelled one after another, so the lock is not.
pub mod Bounds
pub mod Follows
pub mod Conservation
pub mod Tests
use log_collector.Base.{
  ℕ, ◌+◌, Bool, not, ◌&&◌, ◌||◌, Option, none, some, List, [], ◌∷◌, ◌++◌, ◌==◌, text_eq, ltb, leb,
  length, if◌then◌else◌,
}
use log_collector.Base.Int.{int_eq}
use log_collector.Base.Dict.{Dict, lookup, insert}
use log_collector.Base.Text.{Text, bytes}
use log_collector.Model.{FileTarget, Regexp, Record, Time, zero_time}
use log_collector.Tailer.Lines.{truncate_runes, newline}
use log_collector.Tailer.Cri.{parse_cri}
use log_collector.Tailer.Records.{Attributes, prepared_record}

-- `pending`; `start` is nil if the pattern does not compile.
pub record Pending : Type 0 where
  pub body : Text
  pub size : ℕ
  pub lines : ℕ
  pub target : FileTarget
  pub timestamp : Time
  pub attributes : Attributes
  pub updated : Time
  pub start : Option Regexp

-- The limits that `New` takes from the configuration, which `Validate` has found positive.
pub record Limits : Type 0 where
  pub max_read_bytes : ℕ
  pub max_log_size : ℕ
  pub max_multiline_size : ℕ
  pub max_lines : ℕ

-- The outside: whether `emit` takes a record, `regexp.Compile` and `time.Parse`.
pub record Outside : Type 0 where
  pub takes : List Record → Record → Bool
  pub compile : Text → Option Regexp
  pub parse_time : Text → Option Time

pub record Tailer : Type 0 where
  pub pending : Dict Pending
  pub emitted : List Record

-- `rejected` is an error of `emit`; a `panic` is one of Go.
pub data Failure : Type 0 where
  rejected panic : Failure

pub data Outcome : Type 0 where
  done : Outcome
  failed : Failure → Outcome

-- A line with its time stamp and attributes, after `parseCRI` where the target asks for it.
pub record Parsed : Type 0 where
  pub line : Text
  pub timestamp : Time
  pub attributes : Attributes

module _ (out : Outside) where
  -- `emitPrepared`
  unfoldable pub emit_prepared : Time → Record → Tailer → Outcome × Tailer
  emit_prepared now r t =
      let stamped : Record = record r {
        timestamp = if r.timestamp == zero_time then now else r.timestamp;
        observed_timestamp = now;
      } in
      if r.dropped
      then (done, t)
      else if out.takes t.emitted stamped
      then (done, record t { emitted = t.emitted ++ stamped ∷ [] })
      else (failed rejected, t)

  -- `emitRecord`
  unfoldable pub emit_record :
      Time → FileTarget → Text → Time → Attributes → Tailer → Outcome × Tailer
  emit_record now target body timestamp attrs t =
      elim (prepared_record target body timestamp attrs) [
        | none ↦ (failed panic, t)
        | some r ↦ emit_prepared now r t
      ]

  unfoldable pub parse_line : FileTarget → Text → Parsed
  unfolding bytes
  parse_line target line =
      let plain : Parsed = record { line = line; timestamp = zero_time; attributes = none } in
      if target.format == bytes "cri"
      then elim (parse_cri out.parse_time line) [
        | none ↦ plain
        | some c ↦ record {
          line = c.body;
          timestamp = c.timestamp;
          attributes =
              some
                (insert (bytes "log.cri.flag") c.flag (insert (bytes "log.iostream") c.stream []));
        }
      ]
      else plain

  -- The pending entry of a key, made where there is none.
  unfoldable pub pending_of : Time → Text → FileTarget → Tailer → Pending
  pending_of now key target t = elim (lookup key t.pending) [
    | some p ↦ p
    | none ↦ record {
      body = [];
      size = 0;
      lines = 0;
      target = target;
      timestamp = zero_time;
      attributes = none;
      updated = now;
      start = out.compile target.multiline.start_pattern;
    }
  ]

  -- `preparedRecord` writes into the entry's own map, where it has one.
  abbrev pub written_to : Attributes → Attributes → Attributes
  written_to none after = none
  written_to (some before) after = after

  -- A line is added to an entry.
  unfoldable pub append_line : Time → Parsed → Pending → Pending
  append_line now parsed p =
      let empty : Bool = p.body == [] in
      record p {
        body = if empty then parsed.line else p.body ++ newline ∷ parsed.line;
        size = if empty then p.size + length parsed.line else p.size + 1 + length parsed.line;
        lines = p.lines + 1;
        timestamp = if empty then parsed.timestamp else p.timestamp;
        attributes = if empty then parsed.attributes else p.attributes;
        updated = now;
      }

  abbrev pub with_pending : Text → Pending → Tailer → Tailer
  with_pending key p t = record t { pending = insert key p t.pending }

  unfoldable pub over_limit : Limits → Text → Pending → Bool
  over_limit limits line p =
      not (p.body == [])
      && (ltb limits.max_multiline_size (p.size + length line + 1) || leb limits.max_lines p.lines)

  -- The entry is sent and emptied, and the line begins the next record; if it is not taken, the
  -- entry stays.
  unfoldable pub send_and_append : Time → Text → Parsed → Pending → Tailer → Outcome × Tailer
  unfolding emit_prepared append_line
  send_and_append now key parsed p t =
      elim (prepared_record p.target p.body p.timestamp p.attributes) [
        | none ↦ (failed panic, with_pending key p t)
        | some r ↦
            let kept : Pending = record p { attributes = written_to p.attributes r.attributes } in
            let (outcome, t') = emit_prepared now r (with_pending key kept t) in
            elim outcome [
              | failed f ↦ (failed f, t')
              | done ↦ (
                done,
                with_pending key
                    (append_line now parsed (record kept { body = []; size = 0; lines = 0 })) t',
              )
            ]
      ]

  -- The part of `accept` for a multi-line target.
  unfoldable pub accept_multiline :
      Limits → Time → Text → Parsed → Pending → Tailer → Outcome × Tailer
  unfolding send_and_append over_limit
  accept_multiline limits now key parsed p t = elim p.start [
    | none ↦ (failed panic, with_pending key p t)
    | some start ↦
        if (start.match_string parsed.line || over_limit limits parsed.line p) && not (p.body == [])
        then send_and_append now key parsed p t
        else (done, with_pending key (append_line now parsed p) t)
  ]

  abbrev pub cut_line : Limits → Parsed → Parsed
  cut_line limits parsed = record parsed {
    line =
        if ltb limits.max_multiline_size (length parsed.line)
        then truncate_runes parsed.line limits.max_multiline_size
        else parsed.line;
  }

  -- `accept`
  unfoldable pub accept : Limits → Time → Text → FileTarget → Text → Tailer → Outcome × Tailer
  unfolding emit_record accept_multiline parse_line pending_of
  accept limits now key target line t =
      let parsed : Parsed = parse_line target line in
      if target.multiline.start_pattern == []
      then emit_record now target parsed.line parsed.timestamp parsed.attributes t
      else accept_multiline limits now key (cut_line limits parsed) (pending_of now key target t) t
