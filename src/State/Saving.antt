-- ===== src/State/Saving.antt =====
-- `save` of internal/state/store.go among concurrent calls: a run is a list of events, in which
-- `Set` and `Cleanup` may come between the critical sections of a save and the write of the file.
-- One save is under way at a time, as in internal/app/app.go.
pub mod Laws
pub mod Runs
use log_collector.Base.{
  ℕ, ◌+◌, ◌≡◌, ◌≢◌, refl, Bool, true, false, Option, none, some, List, [], ◌∷◌, ◌==◌, text_eq,
  length, if◌then◌else◌, All,
}
use log_collector.Base.Dict.{Dict, lookup}
use log_collector.Base.Text.{Text}
use log_collector.Utf8.{runes, encode, IsUtf8}
use log_collector.Model.{Time, FileInfo}
use log_collector.State.{
  Position, Store, Codec, Snapshot, Begun, clean, failed, snapshot, begin_save, finish_save, set,
  cleanup, load, Decoded, table, Opening, opened, get,
}
use log_collector.State.Files.{Disk, Faults, write_file}

-- Where the save stands: none, behind its first section, or behind its rename.
pub data Phase : Type 0 where
  idle : Phase
  begun renamed : Snapshot → Phase

pub record Machine : Type 0 where
  pub store : Store
  pub disk : Disk
  pub phase : Phase

-- The temporary file's name and the faults are the system's choice.
pub data Event : Type 0 where
  sets : Text → Position → Event
  cleans : (Text → Option FileInfo) → Time → Event
  begins : Bool → Event
  writes : Text → Faults → Event
  finishes : Event

started : Machine → Begun → Machine
started m clean = m
started m failed = m
started m (snapshot snap) = record m { phase = begun snap }

begin_when : Codec → Bool → Machine → Phase → Machine
unfolding started begin_save
begin_when codec force m idle = started m (begin_save codec force m.store)
begin_when codec force m _ = m

-- No temporary file is created over the state file.
write_when : Text → Faults → Machine → Phase → Machine
write_when name faults m (begun snap) =
    let (disk', done) = write_file faults name m.store.path snap.content m.disk in
    if name == m.store.path
    then m
    else record m { disk = disk'; phase = if done then renamed snap else idle }
write_when name faults m _ = m

finish_when : Machine → Phase → Machine
unfolding finish_save
finish_when m (renamed snap) = record m { store = finish_save snap m.store; phase = idle }
finish_when m _ = m

unfoldable pub step : Codec → Machine → Event → Machine
unfolding begin_when write_when finish_when
step codec m (sets key p) = record m { store = set key p m.store }
step codec m (cleans stat older_than) = record m { store = cleanup stat older_than m.store }
step codec m (begins force) = begin_when codec force m m.phase
step codec m (writes name faults) = write_when name faults m m.phase
step codec m finishes = finish_when m m.phase

unfoldable pub run : Codec → Machine → List Event → Machine
run codec m [] = m
run codec m (e ∷ es) = run codec (step codec m e) es

-- How often an event can change the table.
abbrev pub changes : Machine → Event → ℕ
changes m (sets key p) = 1
changes m (cleans stat older_than) = length m.store.positions
changes m _ = 0

unfoldable pub total_changes : Codec → Machine → List Event → ℕ
total_changes codec m [] = 0
total_changes codec m (e ∷ es) = changes m e + total_changes codec (step codec m e) es

-- The keys and paths of a table are valid UTF-8.
abbrev pub IsText : Dict Position → Type 0
IsText d = All (λ e. IsUtf8 e.0 × IsUtf8 e.1.path) d

-- An event sets no other key or path.
abbrev pub SetsText : Event → Type 0
SetsText (sets key p) = IsUtf8 key × IsUtf8 p.path
SetsText _ = Unit

-- What encoding/json promises of such maps. It writes U+FFFD for what is no valid UTF-8, so only a
-- table of valid texts comes back.
pub record IsLawful (codec : Codec) : Type 0 where
  pub nonempty : (d : Dict Position) (b : Text) → codec.marshal d ≡ some b → b ≢ []
  pub round_trip :
      (d : Dict Position) (b : Text)
      → IsText d
      → codec.marshal d ≡ some b
      → (d' : Dict Position) × (codec.unmarshal b ≡ table d')
        × ((k : Text) → lookup k d' ≡ lookup k d)

-- A restart finds the table of the store on the disk.
abbrev pub Recovers : Codec → Store → Disk → Type 0
Recovers codec s disk =
    (t : Store) × (load codec false s.path disk ≡ opened t) × ((k : Text) → get k t ≡ get k s)
