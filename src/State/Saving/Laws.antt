-- ===== src/State/Saving/Laws.antt =====
-- No change of the table is lost by a save that it comes in between: a store that is not marked as
-- changed is on the disk.
use log_collector.Base.{
  ℕ, suc, ◌+◌, ◌%◌, ◌^◌, ◌≤◌, ◌<◌, ◌≡◌, refl, ap, sym, ◌∙◌, ◌⊎◌, inl, inr, Bool, true, false,
  Option, some, [], ◌∷◌, text_eq, length, if◌then◌else◌, arith, subst,
}
use log_collector.Base.Dict.{Dict, lookup, insert-All, erase-All}
use log_collector.Base.Text.{Text}
use log_collector.Utf8.{IsUtf8}
use log_collector.Model.{Time, FileInfo}
use log_collector.State.{
  Position, Store, Codec, Snapshot, set, cleanup_loop, delete_key, is_stale, load, opened,
}
use log_collector.State.Files.{Disk}
use log_collector.State.Laws.{set-dirty}
use log_collector.State.Saving.{Phase, idle, begun, renamed, Machine, IsText, IsLawful, Recovers}

-- The table is the same, or at most `m` changes have been counted and it is marked.
abbrev pub Advance : ℕ → Store → Store → Type 0
Advance m s t =
    (t ≡ s)
    ⊎ ((k : ℕ) × (0 < k)
        × (k ≤ m)
        × (t.generation ≡ (s.generation + k) % 2 ^ 64)
        × (t.dirty ≡ true)
        × (t.path ≡ s.path))

set-path : (key : Text) (p : Position) (s : Store) → (set key p s).path ≡ s.path
unfolding set
set-path key p s = ground arith

pub set-Advance : (key : Text) (p : Position) (s : Store) → Advance 1 s (set key p s)
set-Advance key p s = elim (set-dirty key p s) [
  | inl same ↦ inl same
  | inr (marked, counted) ↦ inr (1, omega arith, omega arith, counted, marked, set-path key p s)
]

Advance-trans : (m n : ℕ) (s t u : Store) → Advance m s t → Advance n t u → Advance (m + n) s u
Advance-trans m n s t u (inl e) (inl f) = inl (f ∙ e)
Advance-trans m n s t u (inl e) (inr (k, a, b, c, d, p)) = inr (
  k,
  a,
  omega arith,
  c ∙ ap (λ (x : Store). (x.generation + k) % 2 ^ 64) e,
  d,
  p ∙ ap (λ (x : Store). x.path) e,
)
Advance-trans m n s t u (inr (k, a, b, c, d, p)) (inl f) = inr (
  k,
  a,
  omega arith,
  ap (λ (x : Store). x.generation) f ∙ c,
  ap (λ (x : Store). x.dirty) f ∙ d,
  ap (λ (x : Store). x.path) f ∙ p,
)
Advance-trans m n s t u (inr (k, a, b, c, d, p)) (inr (k', a', b', c', d', p')) =
    inr (k + k', omega arith, omega arith, omega arith, d', p' ∙ p)

delete_if-Advance :
    (stat : Text → Option FileInfo) (o : Time) (stale : Bool) (key : Text) (s : Store)
    → Advance 1 s (if stale then delete_key stat o key s else s)
delete_if-Advance stat o true key s = inr (1, omega arith, omega arith, refl, refl, refl)
delete_if-Advance stat o false key s = inl refl

pub cleanup_loop-Advance :
    (stat : Text → Option FileInfo) (o : Time) (entries : Dict Position) (s : Store)
    → Advance (length entries) s (cleanup_loop stat o entries s)
unfolding cleanup_loop
cleanup_loop-Advance stat o [] s = inl refl
cleanup_loop-Advance stat o ((key, p) ∷ entries) s =
    let n : 1 + length entries ≡ suc (length entries) = omega arith in
    let s' : Store = if is_stale stat o key p then delete_key stat o key s else s in
    subst (λ m. Advance m s (cleanup_loop stat o entries s')) n
      (Advance-trans 1 (length entries) s s' (cleanup_loop stat o entries s')
        (delete_if-Advance stat o (is_stale stat o key p) key s)
        (cleanup_loop-Advance stat o entries s'))

pub set-IsText :
    (key : Text) (p : Position) (s : Store)
    → IsUtf8 key × IsUtf8 p.path
    → IsText s.positions
    → IsText (set key p s).positions
unfolding set
set-IsText key p s h k = ground (arith, insert-All _ key p s.positions h k)

delete_if-IsText :
    (stat : Text → Option FileInfo) (o : Time) (stale : Bool) (key : Text) (s : Store)
    → IsText s.positions
    → IsText (if stale then delete_key stat o key s else s).positions
delete_if-IsText stat o true key s h = erase-All _ key s.positions h
delete_if-IsText stat o false key s h = h

pub cleanup_loop-IsText :
    (stat : Text → Option FileInfo) (o : Time) (entries : Dict Position) (s : Store)
    → IsText s.positions
    → IsText (cleanup_loop stat o entries s).positions
unfolding cleanup_loop
cleanup_loop-IsText stat o [] s h = h
cleanup_loop-IsText stat o ((key, p) ∷ entries) s h =
    cleanup_loop-IsText stat o entries _ (delete_if-IsText stat o (is_stale stat o key p) key s h)

-- The bytes of a table of valid texts.
pub record IsImage (codec : Codec) (d : Dict Position) (b : Text) : Type 0 where
  pub made : codec.marshal d ≡ some b
  pub texts : IsText d

module _ (codec : Codec) (lawful : IsLawful codec) where
  -- What a save under way knows: its bytes are those of a table, which is still the store's, or it
  -- has been changed at most `n` times since and is marked.
  abbrev pub InFlight : ℕ → Snapshot → Store → Type 0
  InFlight n snap s =
      (d : Dict Position) × IsImage codec d snap.content
      × (snap.generation < 2 ^ 64)
      × (((s.positions ≡ d) × (s.generation ≡ snap.generation))
          ⊎ ((k : ℕ) × (0 < k)
              × (k ≤ n)
              × (s.generation ≡ (snap.generation + k) % 2 ^ 64)
              × (s.dirty ≡ true)))

  InFlight-Advance :
      (n m : ℕ) (snap : Snapshot) (s t : Store)
      → InFlight n snap s
      → Advance m s t
      → InFlight (n + m) snap t
  InFlight-Advance n m snap s t (d, e, w, inl (p, g)) (inl same) = (
    d,
    e,
    w,
    inl (ap (λ (x : Store). x.positions) same ∙ p, ap (λ (x : Store). x.generation) same ∙ g),
  )
  InFlight-Advance n m snap s t (d, e, w, inr (k, a, b, g, dirty)) (inl same) = (
    d,
    e,
    w,
    inr (
      k,
      a,
      omega arith,
      ap (λ (x : Store). x.generation) same ∙ g,
      ap (λ (x : Store). x.dirty) same ∙ dirty,
    ),
  )
  InFlight-Advance n m snap s t (d, e, w, inl (p, g)) (inr (k, a, b, c, dirty, path)) =
      (d, e, w, inr (k, a, omega arith, c ∙ ap (λ (x : ℕ). (x + k) % 2 ^ 64) g, dirty))
  InFlight-Advance n m snap s t (d, e, w, inr (k', a', b', g, dirty'))
        (inr (k, a, b, c, dirty, path)) =
      (d, e, w, inr (k' + k, omega arith, omega arith, omega arith, dirty))

  abbrev pub PhaseInv : ℕ → Store → Disk → Phase → Type 0
  PhaseInv n s disk idle = Unit
  PhaseInv n s disk (begun snap) = InFlight n snap s
  PhaseInv n s disk (renamed snap) = InFlight n snap s × (lookup s.path disk ≡ some snap.content)

  pub record Inv (n : ℕ) (m : Machine) : Type 0 where
    pub saved : m.store.dirty ≡ false → Recovers codec m.store m.disk
    pub loads : (t : Store) × (load codec false m.store.path m.disk ≡ opened t)
    pub texts : IsText m.store.positions
    pub word : m.store.generation < 2 ^ 64
    pub phase_inv : PhaseInv n m.store m.disk m.phase

  -- A change of the store alone.
  PhaseInv-Advance :
      (n k : ℕ) (s t : Store) (disk : Disk) (phase : Phase)
      → Advance k s t
      → t.path ≡ s.path
      → PhaseInv n s disk phase
      → PhaseInv (n + k) t disk phase
  PhaseInv-Advance n k s t disk idle a path h = tt
  PhaseInv-Advance n k s t disk (begun snap) a path h = InFlight-Advance n k snap s t h a
  PhaseInv-Advance n k s t disk (renamed snap) a path (h, e) =
      (InFlight-Advance n k snap s t h a, ap (λ p. lookup p disk) path ∙ e)

  Advance-path : (k : ℕ) (s t : Store) → Advance k s t → t.path ≡ s.path
  Advance-path k s t (inl e) = ap (λ (x : Store). x.path) e
  Advance-path k s t (inr (_, _, _, _, _, p)) = p

  Advance-Recovers :
      (k : ℕ) (s t : Store) (disk : Disk)
      → Advance k s t
      → (s.dirty ≡ false → Recovers codec s disk)
      → t.dirty ≡ false
      → Recovers codec t disk
  Advance-Recovers k s t disk (inl e) h dirty =
      subst (λ x. x.dirty ≡ false → Recovers codec x disk) (sym e) h dirty
  Advance-Recovers k s t disk (inr (_, _, _, _, marked, _)) h dirty = cc

  Advance-word :
      (k : ℕ) (s t : Store) → Advance k s t → s.generation < 2 ^ 64 → t.generation < 2 ^ 64
  Advance-word k s t (inl e) h = omega (arith, ap (λ (x : Store). x.generation) e)
  Advance-word k s t (inr (_, _, _, g, _, _)) h = omega arith

  pub Inv-Advance :
      (n k : ℕ) (m : Machine) (t : Store)
      → Inv n m
      → Advance k m.store t
      → IsText t.positions
      → Inv (n + k) (record m { store = t })
  Inv-Advance n k m t v a valid = record {
    texts = valid;
    saved = Advance-Recovers k m.store t m.disk a v.saved;
    loads =
        subst (λ p. (x : Store) × (load codec false p m.disk ≡ opened x))
          (sym (Advance-path k m.store t a)) v.loads;
    word = Advance-word k m.store t a v.word;
    phase_inv =
        PhaseInv-Advance n k m.store t m.disk m.phase a (Advance-path k m.store t a) v.phase_inv;
  }
