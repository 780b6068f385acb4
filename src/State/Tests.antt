-- ===== src/State/Tests.antt =====
-- Runs of the state store, and its theorems at concrete inputs.
use log_collector.Base.{
  All, ◌⊎◌, ℕ, zero, ◌^◌, ◌<◌, ◌≡◌, ◌≢◌, refl, true, false, Option, none, some, List, [], ◌∷◌, ◌++◌,
  ◌==◌, text_eq, length, take, drop, if◌then◌else◌, arith, ne_of_eq_false, take-append_le, take_all,
  drop-append_length, ◌∙◌,
}
use mathlib.Core.Option.{some-injective}
use log_collector.Base.Int.{ℤ, pos, negsuc, int_eq}
use log_collector.Base.Dict.{Dict, lookup, insert, erase}
use log_collector.Base.Text.{Text, bytes}
use log_collector.Base.Decimal.{format_uint}
use log_collector.Model.{FileInfo}
use log_collector.Utf8.{runes, encode}
use log_collector.State.{
  Position, Store, Codec, Decoded, table, opened, set, cleanup, load, get, is_stale, is_present,
  file_identity,
}
use log_collector.State.Files.{
  Faults, write_steps, write_file, write_steps_atomic, write_file_leaves,
}
use log_collector.State.Laws.{IsCleaned, get-cleanup, file_identity-injective}
use log_collector.State.Saving.{
  idle, Event, sets, begins, writes, finishes, step, run, total_changes, IsText, SetsText, IsLawful,
  Recovers,
}
use log_collector.State.Saving.Runs.{run-Recovers, run_loads}

-- A codec for tables of at most one entry, which can be checked by hand.
entry_bytes : Text → Text → ℤ → ℤ → Option Text
entry_bytes k path (pos n) (pos u) = some (0 ∷ n ∷ u ∷ length k ∷ (k ++ path))
entry_bytes k path _ _ = none

toy_marshal : Dict Position → Option Text
unfolding entry_bytes
toy_marshal [] = some (1 ∷ [])
toy_marshal ((k, p) ∷ []) = entry_bytes k p.path p.offset p.updated_at
toy_marshal (_ ∷ _ ∷ _) = none

toy_unmarshal : Text → Decoded
toy_unmarshal (zero ∷ n ∷ u ∷ l ∷ rest) =
    table ((take l rest, record { path = drop l rest; offset = pos n; updated_at = pos u }) ∷ [])
toy_unmarshal _ = table []

abbrev toy_codec : Codec
toy_codec = record { marshal = toy_marshal; unmarshal = toy_unmarshal }

toy_entry :
    (k path : Text) (offset updated : ℤ) (b : Text)
    → entry_bytes k path offset updated ≡ some b
    → (b ≢ [])
      × (toy_unmarshal b
          ≡ table ((k, record { path = path; offset = offset; updated_at = updated }) ∷ []))
unfolding entry_bytes toy_unmarshal
toy_entry k path (pos n) (pos u) b e =
    let keys : take (length k) (k ++ path) ≡ k =
      take-append_le (length k) k path (omega arith) ∙ take_all (length k) k (omega arith) in
    let paths : drop (length k) (k ++ path) ≡ path = drop-append_length k path in
    ((λ (f : b ≡ []). cc), rw (← (some-injective _ _ e), keys, paths) refl)
toy_entry k path (pos n) (negsuc u) b e = cc
toy_entry k path (negsuc n) u b e = cc

toy_IsLawful : IsLawful toy_codec
unfolding toy_marshal toy_unmarshal
toy_IsLawful = record { nonempty = not_empty; round_trip = back }
  where
    not_empty : (d : Dict Position) (b : Text) → toy_marshal d ≡ some b → b ≢ []
    not_empty [] b e = λ f. cc
    not_empty ((k, p) ∷ []) b e = (toy_entry k p.path p.offset p.updated_at b e).0
    not_empty (_ ∷ _ ∷ _) b e = cc

    back :
        (d : Dict Position) (b : Text)
        → IsText d
        → toy_marshal d ≡ some b
        → (d' : Dict Position) × (toy_unmarshal b ≡ table d')
          × ((k : Text) → lookup k d' ≡ lookup k d)
    back [] b texts e = ([], rw (← (some-injective _ _ e)) refl, λ k. refl)
    back ((k, p) ∷ []) b texts e =
        ((k, p) ∷ [], (toy_entry k p.path p.offset p.updated_at b e).1, λ k'. refl)
    back (_ ∷ _ ∷ _) b texts e = cc

abbrev seven : Position
seven = record { path = bytes "/a"; offset = pos 7; updated_at = pos 1 }

abbrev eight : Position
eight = record { path = bytes "/a"; offset = pos 8; updated_at = pos 2 }

abbrev sound : Faults
sound = record {
  mkdir_fails = false;
  create_fails = false;
  write_fails = false;
  written = 0;
  sync_fails = false;
  close_fails = false;
  rename_fails = false;
  remove_fails = false;
}

abbrev full_disk : Faults
full_disk = record sound { write_fails = true; written = 1 }

abbrev fresh : Store
fresh = record { path = bytes "p"; positions = []; dirty = false; generation = 0 }

-- A change between the sections of a save; the save that follows covers it.
abbrev history : List Event
history =
    sets (bytes "k") seven
    ∷ begins false
    ∷ sets (bytes "k") eight
    ∷ writes (bytes "t") sound
    ∷ finishes
    ∷ begins false
    ∷ writes (bytes "t") sound
    ∷ finishes
    ∷ []

loaded : load toy_codec false (bytes "p") [] ≡ opened fresh
unfolding load lookup
loaded = refl

few : total_changes toy_codec (record { store = fresh; disk = []; phase = idle }) history < 2 ^ 64
unfolding total_changes
few = omega arith

history-SetsText : All SetsText history
unfolding runes encode bytes
history-SetsText = ((refl, refl), (tt, ((refl, refl), (tt, (tt, (tt, (tt, (tt, tt))))))))

history_clean :
    (run toy_codec (record { store = fresh; disk = []; phase = idle }) history).store.dirty ≡ false
unfolding run step set write_file lookup insert erase text_eq int_eq bytes toy_marshal
history_clean = refl

run-Recovers_example :
    let m = run toy_codec (record { store = fresh; disk = []; phase = idle }) history in
    Recovers toy_codec m.store m.disk
run-Recovers_example =
    run-Recovers toy_codec (bytes "p") [] fresh history toy_IsLawful loaded tt history-SetsText few
      history_clean

run_loads_example :
    let m = run toy_codec (record { store = fresh; disk = []; phase = idle }) history in
    (t : Store) × (load toy_codec false m.store.path m.disk ≡ opened t)
run_loads_example =
    run_loads toy_codec (bytes "p") [] fresh history toy_IsLawful loaded tt history-SetsText few

t_ne_p : bytes "t" ≢ bytes "p"
unfolding bytes text_eq
t_ne_p = ne_of_eq_false {a = bytes "t"} {b = bytes "p"} refl

write_steps_atomic_example :
    let w =
      write_steps full_disk (bytes "t") (bytes "p") (bytes "new") ((bytes "p", bytes "old") ∷ []) in
    let old = lookup (bytes "p") ((bytes "p", bytes "old") ∷ []) in
    (lookup (bytes "p") w.created ≡ old)
    × (lookup (bytes "p") w.filled ≡ old)
    × (lookup (bytes "p") w.renamed ≡ (if w.success then some (bytes "new") else old))
    × (lookup (bytes "p") w.final ≡ (if w.success then some (bytes "new") else old))
write_steps_atomic_example =
    write_steps_atomic full_disk (bytes "t") (bytes "p") (bytes "new")
      ((bytes "p", bytes "old") ∷ []) t_ne_p

q_ne_p : bytes "q" ≢ bytes "p"
unfolding bytes text_eq
q_ne_p = ne_of_eq_false {a = bytes "q"} {b = bytes "p"} refl

write_file_leaves_example :
    let (disk', done) =
      write_file full_disk (bytes "t") (bytes "p") (bytes "new") ((bytes "q", bytes "x") ∷ []) in
    (lookup (bytes "q") disk' ≡ lookup (bytes "q") ((bytes "q", bytes "x") ∷ []))
    ⊎ ((bytes "q" ≡ bytes "t") × (full_disk.remove_fails ≡ true) × (done ≡ false))
unfolding bytes lookup text_eq
write_file_leaves_example =
    write_file_leaves full_disk (bytes "t") (bytes "p") (bytes "new") (bytes "q")
      ((bytes "q", bytes "x") ∷ []) refl q_ne_p

abbrev two_entries : Store
two_entries = record fresh { positions = (bytes "1:2", seven) ∷ (bytes "1:3", eight) ∷ [] }

-- The first file is gone, the second is still there.
abbrev status : Text → Option FileInfo
status path =
    if path == bytes "/a"
    then some (record { sys = some (1, 3); size = 9; regular = true })
    else none

get-cleanup_example :
    ((get (bytes "1:2") two_entries ≡ none)
      × (get (bytes "1:2") (cleanup status (pos 5) two_entries) ≡ none))
    ⊎ ((p : Position) × (get (bytes "1:2") two_entries ≡ some p)
        × IsCleaned status
            (pos 5)
            (bytes "1:2")
            p
            (get (bytes "1:2") (cleanup status (pos 5) two_entries)))
unfolding bytes lookup text_eq
get-cleanup_example = get-cleanup status (pos 5) two_entries (bytes "1:2") (refl, (refl, tt))

cleanup_test :
    (get (bytes "1:2") (cleanup status (pos 5) two_entries) ≡ none)
    × (get (bytes "1:3") (cleanup status (pos 5) two_entries) ≡ some eight)
unfolding get cleanup is_stale file_identity erase bytes lookup text_eq is_present format_uint
cleanup_test = (refl, refl)

file_identity-injective_example : (◌≡◌ {A = ℕ} 1 1) × (◌≡◌ {A = ℕ} 2 2)
unfolding file_identity
file_identity-injective_example =
    file_identity-injective (record { sys = some (1, 2); size = 0; regular = true })
      (record { sys = some (1, 2); size = 5; regular = true }) 1 2 1 2 refl refl refl
