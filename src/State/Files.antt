-- ===== src/State/Files.antt =====
-- The file system as `save` of internal/state/store.go uses it: a temporary file beside the state
-- file, written, synced, closed and renamed over it, and removed on every way out. Each step can fail.
use log_collector.Base.{
  ℕ, ◌≡◌, ◌≢◌, ◌⊎◌, true, Bool, false, not, ◌||◌, Option, none, some, [], ◌==◌, text_eq, take,
  if◌then◌else◌, arith,
}
use log_collector.Base.Dict.{Dict, lookup, insert, erase, lookup-insert, lookup-erase}
use log_collector.Base.Text.{Text}

-- Files by name.
abbrev pub Disk : Type 0
Disk = Dict Text

unfoldable pub read_file : Text → Disk → Option Text
read_file name disk = lookup name disk

-- The steps that the system makes fail, and how much a failing write has written.
pub record Faults : Type 0 where
  pub mkdir_fails : Bool
  pub create_fails : Bool
  pub write_fails : Bool
  pub written : ℕ
  pub sync_fails : Bool
  pub close_fails : Bool
  pub rename_fails : Bool
  pub remove_fails : Bool

-- `os.Rename(name, path)` on the disk.
unfoldable pub rename : Text → Text → Disk → Disk
rename name path disk = elim (lookup name disk) [
  | none ↦ disk
  | some b ↦ insert path b (erase name disk)
]

-- The disks that a crash can leave behind, in order: after the creation, the write and the rename;
-- with the disk and the result at the end.
pub record Written : Type 0 where
  pub created : Disk
  pub filled : Disk
  pub renamed : Disk
  pub final : Disk
  pub success : Bool

unfoldable pub write_steps : Faults → Text → Text → Text → Disk → Written
write_steps faults name path b disk =
    if faults.mkdir_fails || faults.create_fails
    then record { created = disk; filled = disk; renamed = disk; final = disk; success = false }
    else (let created : Disk = insert name [] disk in
        let filled : Disk =
          insert name (if faults.write_fails then take faults.written b else b) created in
        let done : Bool =
          not (
            faults.write_fails || faults.sync_fails || faults.close_fails || faults.rename_fails) in
        let renamed : Disk = if done then rename name path filled else filled in
        record {
          created = created;
          filled = filled;
          renamed = renamed;
          final = if faults.remove_fails then renamed else erase name renamed;
          success = done;
        })

-- The part of `save` between its critical sections.
unfoldable pub write_file : Faults → Text → Text → Text → Disk → Disk × Bool
unfolding write_steps
write_file faults name path b disk =
    let w : Written = write_steps faults name path b disk in (w.final, w.success)

module _ (name path : Text) (h : name ≢ path) where
  lookup-insert_other : (b : Text) (d : Disk) → lookup path (insert name b d) ≡ lookup path d
  lookup-insert_other b d = ground (arith, lookup-insert path name b d)

  lookup-erase_other : (d : Disk) → lookup path (erase name d) ≡ lookup path d
  lookup-erase_other d = ground (arith, lookup-erase path name d)

  lookup-rename : (b : Text) (d : Disk) → lookup path (rename name path (insert name b d)) ≡ some b
  unfolding rename
  lookup-rename b d =
      ground (
        arith,
        lookup-insert name name b d,
        lookup-insert path path b (erase name (insert name b d)),
      )

-- Whichever step of writing the state file fails: its content is the old one after the temporary
-- file is created and after it is filled, and from the rename on it is all of the new one exactly
-- if the save succeeds, when the temporary file has another name.
pub write_steps_atomic :
    (faults : Faults) (name path b : Text) (disk : Disk)
    → name ≢ path
    → let w = write_steps faults name path b disk in
      let old = lookup path disk in
      (lookup path w.created ≡ old)
      × (lookup path w.filled ≡ old)
      × (lookup path w.renamed ≡ (if w.success then some b else old))
      × (lookup path w.final ≡ (if w.success then some b else old))
unfolding write_steps
write_steps_atomic faults name path b disk h =
    let part : Text = if faults.write_fails then take faults.written b else b in
    let created : Disk = insert name [] disk in
    let filled : Disk = insert name part created in
    ground (
      arith,
      lookup-insert_other name path h [] disk,
      lookup-insert_other name path h part created,
      lookup-rename name path h part created,
      lookup-erase_other name path h (rename name path filled),
      lookup-erase_other name path h filled,
    )

lookup-rename_other :
    (name path other b : Text) (d : Disk)
    → other ≢ path
    → lookup other (rename name path (insert name b d))
      ≡ (if name == other then none else lookup other d)
unfolding rename
lookup-rename_other name path other b d h = ground (
  arith,
  lookup-insert name name b d,
  lookup-insert other path b (erase name (insert name b d)),
  lookup-erase other name (insert name b d),
  lookup-insert other name b d,
)

-- Writing the state file leaves every other name as it was, whichever step fails, but for the
-- temporary file, which stays behind only if the save fails and its removal fails too, when the
-- temporary name is new.
pub write_file_leaves :
    (faults : Faults) (name path b other : Text) (disk : Disk)
    → lookup name disk ≡ none
    → other ≢ path
    → let (disk', done) = write_file faults name path b disk in
      (lookup other disk' ≡ lookup other disk)
      ⊎ ((other ≡ name) × (faults.remove_fails ≡ true) × (done ≡ false))
unfolding write_file write_steps
write_file_leaves faults name path b other disk fresh h =
    let part : Text = if faults.write_fails then take faults.written b else b in
    let created : Disk = insert name [] disk in
    let filled : Disk = insert name part created in
    ground (
      arith,
      lookup-insert other name [] disk,
      lookup-insert other name part created,
      lookup-rename_other name path other part created h,
      lookup-erase other name (rename name path filled),
      lookup-erase other name filled,
    )
