-- ===== src/State/Saving/Runs.antt =====
-- internal/state/store.go, `save`: the invariant of its steps along a run.
use log_collector.Base.{
  ℕ, ◌+◌, ◌^◌, ◌<◌, ◌≡◌, refl, ap, sym, ◌∙◌, ◌⊎◌, inl, inr, Bool, false, not, ◌&&◌, some, List, [],
  ◌∷◌, ◌==◌, text_eq, nat_eq, if◌then◌else◌, All, arith, Bool-cases, Option-cases, subst,
  ne_of_eq_false, ==→≡,
}
use log_collector.Base.Dict.{Dict, lookup}
use log_collector.Base.Text.{Text}
use log_collector.State.{
  Position, Store, Codec, Snapshot, clean, failed, snapshot, begin_save, finish_save, load, opened,
  get, cleanup,
}
use log_collector.State.Files.{Disk, Faults, write_file, write_steps, write_steps_atomic, read_file}
use log_collector.State.Saving.{
  Phase, idle, begun, renamed, Machine, Event, sets, cleans, begins, writes, finishes, started,
  begin_when, write_when, finish_when, step, run, changes, total_changes, IsText, SetsText,
  IsLawful, Recovers,
}
use log_collector.State.Saving.Laws.{
  set-Advance, cleanup_loop-Advance, set-IsText, cleanup_loop-IsText, IsImage, Inv, InFlight,
  PhaseInv, Inv-Advance,
}

begin_save-cases :
    (codec : Codec) (force : Bool) (s : Store)
    → (begin_save codec force s ≡ clean)
      ⊎ (begin_save codec force s ≡ failed)
      ⊎ ((b : Text) × (codec.marshal s.positions ≡ some b)
          × (begin_save codec force s
              ≡ snapshot (record { content = b; generation = s.generation })))
unfolding begin_save
begin_save-cases codec force s = elim (Bool-cases (not force && not s.dirty)) [
  | inl same ↦ inl (rw same refl)
  | inr go ↦ elim (Option-cases (codec.marshal s.positions)) [
    | inl e ↦ inr (inl (rw (go, e) refl))
    | inr (b, e) ↦ inr (inr (b, e, rw (go, e) refl))
  ]
]

-- What `Load` makes of a file depends on its bytes alone.
load_same :
    (codec : Codec) (path : Text) (d d' : Disk)
    → lookup path d' ≡ lookup path d
    → load codec false path d' ≡ load codec false path d
unfolding load read_file
load_same codec path d d' e = rw (e, load) refl

load_fields :
    (codec : Codec) (path : Text) (disk : Disk) (s : Store)
    → load codec false path disk ≡ opened s
    → (s.path ≡ path) × (s.dirty ≡ false) × (s.generation ≡ 0)
unfolding load
load_fields codec path disk s e = ground arith

module _ (codec : Codec) (lawful : IsLawful codec) where
  same_count : (n : ℕ) (m : Machine) → Inv codec lawful n m → Inv codec lawful (n + 0) m
  same_count n m v = let e : n ≡ n + 0 = omega arith in subst (λ k. Inv codec lawful k m) e v

  -- Bytes of a table on the disk give the table back.
  load-marshal :
      (s : Store) (disk : Disk) (d : Dict Position) (b : Text)
      → IsImage codec d b
      → lookup s.path disk ≡ some b
      → (t : Store) × (load codec false s.path disk ≡ opened t)
        × ((k : Text) → get k t ≡ lookup k d)
  unfolding load read_file get
  load-marshal s disk d [] e f = absurd (lawful.nonempty d [] e.made refl)
  load-marshal s disk d (c ∷ b) e f =
      let (d', back, same) = lawful.round_trip d (c ∷ b) e.texts e.made in
      (
        record { path = s.path; positions = d'; dirty = false; generation = 0 },
        rw (f, load, back) refl,
        same,
      )

  begin-Inv :
      (n : ℕ) (force : Bool) (m : Machine) (phase : Phase)
      → m.phase ≡ phase
      → Inv codec lawful n m
      → Inv codec lawful n (begin_when codec force m phase)
  unfolding begin_when
  begin-Inv n force m idle p v = elim (begin_save-cases codec force m.store) [
    | inl e ↦ rw (e, started) v
    | inr (inl e) ↦ rw (e, started) v
    | inr (inr (b, e, f)) ↦
        rw (f, started)
          (record {
            saved = v.saved;
            loads = v.loads;
            texts = v.texts;
            word = v.word;
            phase_inv =
                (m.store.positions, record { made = e; texts = v.texts }, v.word, inl (refl, refl));
          })
  ]
  begin-Inv n force m (begun snap) p v = v
  begin-Inv n force m (renamed snap) p v = v

  -- A store that is not marked is still the table of the save under way.
  InFlight-clean :
      (n : ℕ) (snap : Snapshot) (s : Store) (disk : Disk)
      → InFlight codec lawful n snap s
      → lookup s.path disk ≡ some snap.content
      → ((s.dirty ≡ false) ⊎ ((s.generation ≡ snap.generation) × (n < 2 ^ 64)))
      → Recovers codec s disk
  unfolding get
  InFlight-clean n snap s disk (d, e, w, inl (p, g)) f h =
      let (t, found, same) = load-marshal s disk d snap.content e f in
      (t, found, λ k. same k ∙ ap (lookup k) (sym p))
  InFlight-clean n snap s disk (d, e, w, inr (k, a, b, g, marked)) f (inl dirty) = cc
  InFlight-clean n snap s disk (d, e, w, inr (k, a, b, g, marked)) f (inr (same, few)) =
      absurd (omega arith)

  InFlight-loads :
      (n : ℕ) (snap : Snapshot) (s : Store) (disk : Disk)
      → InFlight codec lawful n snap s
      → lookup s.path disk ≡ some snap.content
      → (t : Store) × (load codec false s.path disk ≡ opened t)
  InFlight-loads n snap s disk (d, e, w, _) f =
      let (t, found, same) = load-marshal s disk d snap.content e f in (t, found)

  -- A failed write leaves the state file as it was.
  keep-Inv :
      (n : ℕ) (m : Machine) (disk : Disk)
      → lookup m.store.path disk ≡ lookup m.store.path m.disk
      → Inv codec lawful n m
      → Inv codec lawful n (record m { disk = disk; phase = idle })
  keep-Inv n m disk e v =
      let same = load_same codec m.store.path m.disk disk e in
      record {
        saved = λ h. let (t, found, gets) = v.saved h in (t, same ∙ found, gets);
        loads = let (t, found) = v.loads in (t, same ∙ found);
        texts = v.texts;
        word = v.word;
        phase_inv = tt;
      }

  renamed-Inv :
      (n : ℕ) (m : Machine) (disk : Disk) (snap : Snapshot)
      → lookup m.store.path disk ≡ some snap.content
      → InFlight codec lawful n snap m.store
      → Inv codec lawful n m
      → Inv codec lawful n (record m { disk = disk; phase = renamed snap })
  renamed-Inv n m disk snap e flight v = record {
    saved = λ h. InFlight-clean n snap m.store disk flight e (inl h);
    loads = InFlight-loads n snap m.store disk flight e;
    texts = v.texts;
    word = v.word;
    phase_inv = (flight, e);
  }

  write-Inv :
      (n : ℕ) (name : Text) (faults : Faults) (m : Machine) (phase : Phase)
      → m.phase ≡ phase
      → Inv codec lawful n m
      → Inv codec lawful n (write_when name faults m phase)
  unfolding write_when write_file
  write-Inv n name faults m (begun snap) p v = elim (Bool-cases (name == m.store.path)) [
    | inl taken ↦ rw taken v
    | inr other ↦
        let w = write_steps faults name m.store.path snap.content m.disk in
        let ends : lookup m.store.path w.final
            ≡ (if w.success then some snap.content else lookup m.store.path m.disk) =
          (write_steps_atomic faults name m.store.path snap.content m.disk
            (ne_of_eq_false other)).3 in
        elim (Bool-cases w.success) [
          | inl done ↦
              rw (other, done)
                (renamed-Inv n m w.final snap (rw done at ends)
                  (subst (PhaseInv codec lawful n m.store m.disk) p v.phase_inv) v)
          | inr broken ↦ rw (other, broken) (keep-Inv n m w.final (rw broken at ends) v)
        ]
  ]
  write-Inv n name faults m idle p v = v
  write-Inv n name faults m (renamed snap) p v = v

  finish-Inv :
      (n : ℕ) (m : Machine) (phase : Phase)
      → n < 2 ^ 64
      → m.phase ≡ phase
      → Inv codec lawful n m
      → Inv codec lawful n (finish_when m phase)
  unfolding finish_when finish_save get
  finish-Inv n m (renamed snap) few p v =
      let (flight, e) = subst (PhaseInv codec lawful n m.store m.disk) p v.phase_inv in
      elim (Bool-cases (m.store.generation == snap.generation)) [
        | inl same ↦ rw same (record {
          saved = λ h. InFlight-clean n snap m.store m.disk flight e (inr (==→≡ _ _ same, few));
          loads = v.loads;
          texts = v.texts;
          word = v.word;
          phase_inv = tt;
        })
        | inr changed ↦ rw changed (record {
          saved = v.saved;
          loads = v.loads;
          texts = v.texts;
          word = v.word;
          phase_inv = tt;
        })
      ]
  finish-Inv n m idle few p v = v
  finish-Inv n m (begun snap) few p v = v

  step-Inv :
      (n : ℕ) (m : Machine) (e : Event)
      → n + changes m e < 2 ^ 64
      → SetsText e
      → Inv codec lawful n m
      → Inv codec lawful (n + changes m e) (step codec m e)
  unfolding step cleanup
  step-Inv n m (sets key p) few valid v =
      Inv-Advance codec lawful n 1 m _ v (set-Advance key p m.store)
        (set-IsText key p m.store valid v.texts)
  step-Inv n m (cleans stat o) few valid v =
      Inv-Advance codec lawful n _ m _ v (cleanup_loop-Advance stat o m.store.positions m.store)
        (cleanup_loop-IsText stat o m.store.positions m.store v.texts)
  step-Inv n m (begins force) few valid v = same_count n _ (begin-Inv n force m m.phase refl v)
  step-Inv n m (writes name faults) few valid v =
      same_count n _ (write-Inv n name faults m m.phase refl v)
  step-Inv n m finishes few valid v = same_count n _ (finish-Inv n m m.phase (omega arith) refl v)

  run-Inv :
      (n : ℕ) (m : Machine) (es : List Event)
      → n + total_changes codec m es < 2 ^ 64
      → All SetsText es
      → Inv codec lawful n m
      → Inv codec lawful (n + total_changes codec m es) (run codec m es)
  unfolding run total_changes
  run-Inv n m [] few valid v = same_count n m v
  run-Inv n m (e ∷ es) few (valid, valids) v =
      subst (λ k. Inv codec lawful k (run codec (step codec m e) es)) (omega arith)
        (run-Inv (n + changes m e) (step codec m e) es (omega arith) valids
          (step-Inv n m e (omega arith) valid v))

  start-Inv :
      (path : Text) (disk : Disk) (s : Store)
      → load codec false path disk ≡ opened s
      → IsText s.positions
      → Inv codec lawful 0 (record { store = s; disk = disk; phase = idle })
  start-Inv path disk s e valid =
      let (p, unmarked, zeroed) = load_fields codec path disk s e in
      let again : load codec false s.path disk ≡ opened s =
        ap (λ q. load codec false q disk) p ∙ e in
      record {
        saved = λ _. (s, again, λ k. refl);
        loads = (s, again);
        texts = valid;
        word = omega arith;
        phase_inv = tt;
      }

-- However saves and changes of the position table come in between one another, and whichever
-- steps of the saves fail: with a lawful JSON codec, paths and keys that are valid UTF-8, a start
-- from a state file that loads and fewer than 2^64 changes since, a store that is not marked
-- dirty is on the disk, so a restart that can read the file finds every position as it is.
pub run-Recovers :
    (codec : Codec) (path : Text) (disk : Disk) (s : Store) (es : List Event)
    → IsLawful codec
    → load codec false path disk ≡ opened s
    → IsText s.positions
    → All SetsText es
    → total_changes codec (record { store = s; disk = disk; phase = idle }) es < 2 ^ 64
    → (run codec (record { store = s; disk = disk; phase = idle }) es).store.dirty ≡ false
    → Recovers codec
        (run codec (record { store = s; disk = disk; phase = idle }) es).store
        (run codec (record { store = s; disk = disk; phase = idle }) es).disk
run-Recovers codec path disk s es lawful e valid valids few =
    (run-Inv codec lawful 0 _ es (omega arith) valids
      (start-Inv codec lawful path disk s e valid)).saved

-- However saves and changes of the position table come in between one another, and whichever
-- steps of the saves fail: with a lawful JSON codec, paths and keys that are valid UTF-8, a start
-- from a state file that loads and fewer than 2^64 changes since, a restart that can read the
-- state file loads it, and never gets a nil map.
pub run_loads :
    (codec : Codec) (path : Text) (disk : Disk) (s : Store) (es : List Event)
    → IsLawful codec
    → load codec false path disk ≡ opened s
    → IsText s.positions
    → All SetsText es
    → total_changes codec (record { store = s; disk = disk; phase = idle }) es < 2 ^ 64
    → let m = run codec (record { store = s; disk = disk; phase = idle }) es in
      (t : Store) × (load codec false m.store.path m.disk ≡ opened t)
run_loads codec path disk s es lawful e valid valids few =
    (run-Inv codec lawful 0 _ es (omega arith) valids
      (start-Inv codec lawful path disk s e valid)).loads
