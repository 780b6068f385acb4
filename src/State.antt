-- ===== src/State.antt =====
-- internal/state/store.go: the table of read positions. JSON is a parameter; a save is modelled in
-- its two critical sections with the disk between them, so that other calls can come in between.
pub mod Files
pub mod Laws
pub mod Saving
mod Tests
use log_collector.Base.{
  ℕ, ◌+◌, ◌%◌, ◌^◌, ◌≡◌, Bool, true, false, not, ◌&&◌, Option, none, some, List, [], ◌∷◌, ◌++◌,
  ◌==◌, text_eq, nat_eq, if◌then◌else◌,
}
use log_collector.Base.Int.{ℤ, int_eq, ltb_ℤ}
use log_collector.Base.Dict.{Dict, lookup, insert, erase}
use log_collector.Base.Text.{Text, bytes}
use log_collector.Base.Decimal.{format_uint}
use log_collector.Model.{Time, FileInfo}
use Files.{Disk, Faults, read_file, write_file}

pub record Position : Type 0 where
  pub path : Text
  pub offset : ℤ
  pub updated_at : Time

pub record Store : Type 0 where
  pub path : Text
  pub positions : Dict Position
  pub dirty : Bool
  pub generation : ℕ

-- What `json.Unmarshal` makes of a text: an error, a nil map for `null`, or a table.
pub data Decoded : Type 0 where
  malformed null : Decoded
  table : Dict Position → Decoded

-- The package encoding/json on a map of positions.
pub record Codec : Type 0 where
  pub marshal : Dict Position → Option Text
  pub unmarshal : Text → Decoded

-- `generation++` on a `uint64`.
abbrev next_generation : ℕ → ℕ
next_generation n = (n + 1) % 2 ^ 64

-- The result of `Load`: an error, a store whose map is nil, on which `Get` finds nothing and `Set`
-- panics, or a store.
pub data Opening : Type 0 where
  refused nil_map : Opening
  opened : Store → Opening

abbrev fresh_store : Text → Dict Position → Store
fresh_store path d = record { path = path; positions = d; dirty = false; generation = 0 }

-- `Load`; `read_fails` is an error of `os.ReadFile` other than that there is no file.
unfoldable pub load : Codec → Bool → Text → Disk → Opening
unfolding read_file
load codec read_fails path disk = if read_fails then refused else elim (read_file path disk) [
  | none ↦ opened (fresh_store path [])
  | some [] ↦ opened (fresh_store path [])
  | some (c ∷ b) ↦ elim (codec.unmarshal (c ∷ b)) [
    | malformed ↦ refused
    | null ↦ nil_map
    | table d ↦ opened (fresh_store path d)
  ]
]

-- `Get`
unfoldable pub get : Text → Store → Option Position
get key s = lookup key s.positions

abbrev is_same : Position → Position → Bool
is_same old p = old.offset == p.offset && old.path == p.path

abbrev put : Text → Position → Store → Store
put key p s = record s {
  positions = insert key p s.positions;
  dirty = true;
  generation = next_generation s.generation;
}

-- `Set`
unfoldable pub set : Text → Position → Store → Store
set key p s = elim (lookup key s.positions) [
  | none ↦ put key p s
  | some old ↦ if is_same old p then s else put key p s
]

-- `fileIdentity`
unfoldable pub file_identity : FileInfo → Text
file_identity info = elim info.sys [
  | none ↦ []
  | some (dev, ino) ↦ format_uint dev ++ (bytes ":" ++ format_uint ino)
]

module _ (stat : Text → Option FileInfo) (older_than : Time) where
  -- The path still leads to the file with this identity.
  unfoldable pub is_present : Text → Position → Bool
  is_present key position = elim (stat position.path) [
    | none ↦ false
    | some info ↦ file_identity info == key
  ]

  -- The entries that `Cleanup` deletes.
  unfoldable pub is_stale : Text → Position → Bool
  is_stale key position = ltb_ℤ position.updated_at older_than && not (is_present key position)

  abbrev delete_key : Text → Store → Store
  delete_key key s = record s {
    positions = erase key s.positions;
    dirty = true;
    generation = next_generation s.generation;
  }

  -- The loop of `Cleanup`, over the entries that it ranges over.
  unfoldable pub cleanup_loop : Dict Position → Store → Store
  cleanup_loop [] s = s
  cleanup_loop ((key, position) ∷ entries) s =
      cleanup_loop entries (if is_stale key position then delete_key key s else s)

  -- `Cleanup`
  unfoldable pub cleanup : Store → Store
  unfolding cleanup_loop
  cleanup s = cleanup_loop s.positions s

-- What `save` holds between its two critical sections.
pub record Snapshot : Type 0 where
  pub content : Text
  pub generation : ℕ

-- The first section of `save`: nothing to do, an error, or a snapshot.
pub data Begun : Type 0 where
  clean failed : Begun
  snapshot : Snapshot → Begun

unfoldable pub begin_save : Codec → Bool → Store → Begun
begin_save codec force s =
    if not force && not s.dirty then clean else elim (codec.marshal s.positions) [
      | none ↦ failed
      | some b ↦ snapshot (record { content = b; generation = s.generation })
    ]

-- The last section of `save`, behind a successful rename.
unfoldable pub finish_save : Snapshot → Store → Store
finish_save snap s = if s.generation == snap.generation then record s { dirty = false } else s

-- `save` with nothing in between: the store, the disk, and whether it returned nil.
unfoldable pub save : Codec → Bool → Text → Faults → Store → Disk → Store × Disk × Bool
unfolding begin_save finish_save
save codec force name faults s disk = elim (begin_save codec force s) [
  | clean ↦ (s, disk, true)
  | failed ↦ (s, disk, false)
  | snapshot snap ↦
      let (disk', done) = write_file faults name s.path snap.content disk in
      (if done then finish_save snap s else s, disk', done)
]
