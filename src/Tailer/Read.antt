-- ===== src/Tailer/Read.antt =====
-- internal/tailer/tailer.go: `read` and `Poll`. A file is its status and what a reader finds behind
-- an offset; `Seek` fails at a negative one. Byte counts of a file are below 2^63, so that a read
-- does not wrap the `int64` offset. The buffer of `bufio.NewReaderSize` has 64 KiB.
pub mod Laws
pub mod Resuming
pub mod Tests
use log_collector.Base.{
  ℕ, zero, suc, ◌+◌, ◌*◌, Bool, true, false, not, ◌&&◌, ◌||◌, Option, none, some, List, [], ◌∷◌,
  ◌++◌, ◌==◌, nat_eq, text_eq, ltb, length, drop, take, if◌then◌else◌,
}
use log_collector.Base.Int.{ℤ, pos, negsuc, int_eq, ltb_ℤ}
use log_collector.Base.Text.{Text, bytes}
use log_collector.Base.Decimal.{format_uint}
use log_collector.Model.{FileTarget, FileInfo, Record, Time}
use log_collector.State
use log_collector.State.{Store, Position, file_identity}
use log_collector.Tailer.Lines.{Reader, ReadError, Line, read_bounded_line}
use log_collector.Tailer.Flush.{flush_expired}
use log_collector.Tailer.Accept.{Tailer, Limits, Outside, Outcome, done, failed, accept}

abbrev pub buffer_size : ℕ
buffer_size = 64 * 1024

-- A file that can be opened: its status, its bytes, and how reading it ends.
pub record File : Type 0 where
  pub info : FileInfo
  pub content : Text
  pub failure : ReadError

-- The error of `read`, or none.
pub data ReadOutcome : Type 0 where
  finished : ReadOutcome
  cannot_open no_identity cannot_seek : ReadOutcome
  not_accepted : Outcome → ReadOutcome

-- What the loop hands to the deferred function: the offset to commit.
pub record Progress : Type 0 where
  pub outcome : ReadOutcome
  pub committed : ℕ
  pub tailer : Tailer

-- `readErr != nil`
abbrev pub has_error : Line → Bool
has_error line = elim line.error [ none ↦ false | some e ↦ true ]

module _ (out : Outside) (limits : Limits) (now : Time) (key : Text) (target : FileTarget) where
  -- The loop of `read`, on fuel; `none` means that the fuel has run out.
  unfoldable pub read_loop : ℕ → ℕ → ℕ → Reader → Tailer → Option Progress
  read_loop zero offset read_bytes r t = none
  read_loop (suc fuel) offset read_bytes r t =
      let stop : Option Progress =
        some (record { outcome = finished; committed = offset; tailer = t }) in
      if not (ltb read_bytes limits.max_read_bytes)
      then stop
      else elim (read_bounded_line buffer_size r limits.max_log_size) [
        | none ↦ none
        | some line ↦
            if (line.consumed == 0 && has_error line) || not line.complete
            then stop
            else (let (outcome, t') = accept out limits now key target line.text t in
                let next : ℕ = offset + line.consumed in
                let rest : Option Progress =
                  read_loop fuel next (read_bytes + line.consumed) (record r { rest = line.rest })
                    t' in
                elim outcome [
                  | failed f ↦ some (record {
                    outcome = not_accepted (failed f);
                    committed = offset;
                    tailer = t';
                  })
                  | done ↦
                      if has_error line
                      then some (record { outcome = finished; committed = next; tailer = t' })
                      else rest
                ])
      ]

-- `identity`; `none` is an error.
unfoldable pub identity : FileInfo → Option Text
unfolding bytes
identity info = elim info.sys [
  | none ↦ none
  | some (dev, ino) ↦ some (format_uint dev ++ (bytes ":" ++ format_uint ino))
]

-- Where `read` seeks to, from the saved position.
unfoldable pub start_offset : FileTarget → FileInfo → Option Position → ℤ
unfolding bytes
start_offset target info saved =
    let offset : ℤ = elim saved [
      | some p ↦ p.offset
      | none ↦ if target.start_at == bytes "end" then pos info.size else pos 0
    ] in
    if ltb_ℤ (pos info.size) offset then pos 0 else offset

-- `pos.Offset`, which is 0 where nothing is saved.
abbrev pub initial_offset : Option Position → ℤ
initial_offset none = pos 0
initial_offset (some p) = p.offset

-- The deferred function.
unfoldable pub commit : Time → Text → FileTarget → Option Position → ℕ → Store → Store
commit now key target saved committed store =
    if pos committed == initial_offset saved
    then store
    else State.set key (record { path = target.path; offset = pos committed; updated_at = now })
        store

-- What a call of `read` changes.
pub record World : Type 0 where
  pub store : Store
  pub tailer : Tailer

module _ (out : Outside) (limits : Limits) (now : Time) (target : FileTarget) where
  read_from : File → Text → Option Position → ℤ → World → Option (ReadOutcome × World)
  unfolding read_loop commit
  read_from file key saved (negsuc n) w = some (cannot_seek, w)
  read_from file key saved (pos n) w =
      let rest : Text = drop n file.content in
      elim (read_loop out limits now key target (suc (length rest)) n 0
        (record { rest = rest; failure = file.failure }) w.tailer) [
          | none ↦ none
          | some p ↦ some (
            p.outcome,
            record { store = commit now key target saved p.committed w.store; tailer = p.tailer },
          )
        ]

  -- `read`, of what opening the path gives.
  unfoldable pub read : Option File → World → Option (ReadOutcome × World)
  unfolding read_from start_offset identity
  read none w = some (cannot_open, w)
  read (some file) w = elim (identity file.info) [
    | none ↦ some (no_identity, w)
    | some key ↦
        let saved : Option Position = State.get key w.store in
        read_from file key saved (start_offset target file.info saved) w
  ]

-- The reads of `Poll`, in the order in which they are done; their errors are only logged.
unfoldable pub read_all :
    Outside → Limits → Time → (Text → Option File) → List FileTarget → World → Option World
unfolding read
read_all out limits now files [] w = some w
read_all out limits now files (target ∷ targets) w =
    elim (read out limits now target (files target.path) w) [
      | none ↦ none
      | some (outcome, w') ↦ read_all out limits now files targets w'
    ]

-- How Poll ends, beside an outcome of flushing.
pub data PollOutcome : Type 0 where
  context_ended : PollOutcome
  flushed : Outcome → PollOutcome

-- `Poll`; with `some n`, the context ends when `n` targets have been handed to the workers. Each of
-- them reads its targets, here one after another.
unfoldable pub poll :
    Outside
    → Limits
    → Time
    → Time
    → (Text → Option File)
    → Option ℕ
    → List FileTarget
    → World
    → Option (PollOutcome × World)
unfolding read_all flush_expired
poll out limits now later files none targets w = elim (read_all out limits now files targets w) [
  | none ↦ none
  | some w' ↦
      let (outcome, t) = flush_expired out later w'.tailer in
      some (flushed outcome, record w' { tailer = t })
]
poll out limits now later files (some n) targets w =
    elim (read_all out limits now files (take n targets) w) [
      | none ↦ none
      | some w' ↦ some (context_ended, w')
    ]
