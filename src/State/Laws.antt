-- ===== src/State/Laws.antt =====
-- What `Get`, `Set` and `Cleanup` of internal/state/store.go do to the table.
use log_collector.Base.{
  ℕ, ◌+◌, ◌%◌, ◌^◌, ◌≡◌, ◌≢◌, ◌↔◌, ==→≡, some-injective, none-ne-some, subst, inl, inr, Bool-cases,
  refl, sym, ◌∙◌, ◌⊎◌, Bool, true, false, Option, none, some, [], ◌∷◌, ◌++◌, ◌==◌, text_eq, nat_eq,
  if◌then◌else◌, arith, All,
}
use log_collector.Base.Int.{int_eq, ◌<ℤ◌}
use log_collector.Base.Dict.{
  Dict, lookup, NodupKeys, lookup-insert, lookup-erase, insert-NodupKeys, erase-NodupKeys,
}
use log_collector.Base.Text.{Text, bytes}
use log_collector.Base.Decimal.{format_uint, format_uint-injective, format_uint-IsDigit, IsDigit}
use log_collector.Model.{Time, FileInfo}
use log_collector.State.{
  Position, Store, get, set, is_same, delete_key, is_stale, is_present, cleanup_loop, cleanup,
  file_identity,
}

-- After Set, the key reads the new position, or the old one where its path and offset are the
-- same, and every other key reads as before.
pub get-set :
    (key other : Text) (p : Position) (s : Store)
    → get other (set key p s) ≡ (
        if key == other
        then elim (get key s) [ none ↦ some p | some old ↦ some (if is_same old p then old else p) ]
        else get other s)
unfolding get set
get-set key other p s = ground (arith, lookup-insert other key p s.positions)

-- A `Set` that changes nothing leaves the store clean; any other marks it as changed.
pub set-dirty :
    (key : Text) (p : Position) (s : Store)
    → (set key p s ≡ s)
      ⊎ (((set key p s).dirty ≡ true) × ((set key p s).generation ≡ (s.generation + 1) % 2 ^ 64))
unfolding set
set-dirty key p s = ground arith

pub set-NodupKeys :
    (key : Text) (p : Position) (s : Store)
    → NodupKeys s.positions
    → NodupKeys (set key p s).positions
unfolding set
set-NodupKeys key p s h = ground (arith, insert-NodupKeys key p s.positions h)

module _ (stat : Text → Option FileInfo) (older_than : Time) where
  -- What a look-up finds after `Cleanup`, by the entry that was ranged over and the one at hand.
  abbrev pub kept : Text → Option Position → Option Position → Option Position
  kept key none now = now
  kept key (some p) now = if is_stale stat older_than key p then none else now

  cleanup_loop-lookup :
      (entries : Dict Position) (s : Store) (key : Text)
      → NodupKeys entries
      → lookup key (cleanup_loop stat older_than entries s).positions
        ≡ kept key (lookup key entries) (lookup key s.positions)
  unfolding cleanup_loop lookup
  cleanup_loop-lookup [] s key u = refl
  cleanup_loop-lookup ((j, p) ∷ entries) s key (fresh, u) = ground (
    arith,
    cleanup_loop-lookup entries s key u,
    cleanup_loop-lookup entries (delete_key stat older_than j s) key u,
    lookup-erase key j s.positions,
  )

  -- Old enough, and its file gone or another one.
  abbrev pub IsStale : Text → Position → Type 0
  IsStale key p =
      (p.updated_at <ℤ older_than)
      × ((info : FileInfo) → stat p.path ≡ some info → file_identity info ≢ key)

  gone :
      (found : Option FileInfo) (key : Text) (info : FileInfo)
      → elim found [ none ↦ false | some i ↦ file_identity i == key ] ≡ false
      → found ≡ some info
      → file_identity info ≢ key
  gone none key info e h = absurd (none-ne-some _ h)
  gone (some i) key info e h =
      subst (λ i. file_identity i ≢ key) (some-injective i info h) (λ same. ground (arith, e, same))

  there :
      (found : Option FileInfo) (key : Text)
      → elim found [ none ↦ false | some i ↦ file_identity i == key ] ≡ true
      → (info : FileInfo) × (found ≡ some info) × (file_identity info ≡ key)
  there none key e = cc
  there (some i) key e = (i, refl, ==→≡ _ _ e)

  is_stale_iff :
      (key : Text) (p : Position) → (is_stale stat older_than key p ≡ true) ↔ IsStale key p
  unfolding is_stale is_present
  is_stale_iff key p = (
    (λ e. (ground (arith, e), (λ info h. gone (stat p.path) key info (ground (arith, e)) h))),
    (λ (old, other). elim (Bool-cases (is_present stat older_than key p)) [
      | inl t ↦ let (info, h, same) = there (stat p.path) key t in absurd (other info h same)
      | inr f ↦ ground (arith, old, f)
    ]),
  )

  -- What becomes of an entry.
  abbrev pub IsCleaned : Text → Position → Option Position → Type 0
  IsCleaned key p after = (IsStale key p × (after ≡ none)) ⊎ ((¬ IsStale key p) × (after ≡ some p))

  kept-IsCleaned :
      (key : Text) (o : Option Position)
      → ((o ≡ none) × (kept key o o ≡ none))
        ⊎ ((p : Position) × (o ≡ some p) × IsCleaned key p (kept key o o))
  kept-IsCleaned key none = inl (refl, refl)
  kept-IsCleaned key (some p) = elim (Bool-cases (is_stale stat older_than key p)) [
    | inl t ↦ inr (p, refl, inl ((is_stale_iff key p).0 t, rw t refl))
    | inr f ↦ inr (p, refl, inr ((λ h. ground (arith, f, (is_stale_iff key p).1 h)), rw f refl))
  ]

  -- Cleanup deletes exactly the positions that are older than the limit and whose path leads to
  -- no file or to a file of another identity; every other key reads as before, when no key stands
  -- twice in the table.
  pub get-cleanup :
      (s : Store) (key : Text)
      → NodupKeys s.positions
      → ((get key s ≡ none) × (get key (cleanup stat older_than s) ≡ none))
        ⊎ ((p : Position) × (get key s ≡ some p)
            × IsCleaned key p (get key (cleanup stat older_than s)))
  unfolding get cleanup
  get-cleanup s key u =
      rw (cleanup_loop-lookup s.positions s key u) (kept-IsCleaned key (lookup key s.positions))

  delete_if-NodupKeys :
      (stale : Bool) (key : Text) (s : Store)
      → NodupKeys s.positions
      → NodupKeys (if stale then delete_key stat older_than key s else s).positions
  delete_if-NodupKeys true key s u = erase-NodupKeys key s.positions u
  delete_if-NodupKeys false key s u = u

  cleanup_loop-NodupKeys :
      (entries : Dict Position) (s : Store)
      → NodupKeys s.positions
      → NodupKeys (cleanup_loop stat older_than entries s).positions
  unfolding cleanup_loop
  cleanup_loop-NodupKeys [] s u = u
  cleanup_loop-NodupKeys ((j, p) ∷ entries) s u =
      cleanup_loop-NodupKeys entries _ (delete_if-NodupKeys (is_stale stat older_than j p) j s u)

  pub cleanup-NodupKeys :
      (s : Store) → NodupKeys s.positions → NodupKeys (cleanup stat older_than s).positions
  unfolding cleanup
  cleanup-NodupKeys s u = cleanup_loop-NodupKeys s.positions s u

colon_no_digit : (c : ℕ) → IsDigit c → ¬ (c ≡ b':')
colon_no_digit c h e = omega arith

-- The text before the first colon, and the text behind it, are determined.
colon_split :
    (p q r t : Text)
    → All IsDigit p
    → All IsDigit q
    → p ++ b':' ∷ r ≡ q ++ b':' ∷ t
    → (p ≡ q) × (r ≡ t)
colon_split [] [] r t h k e = (refl, cc)
colon_split [] (y ∷ q) r t h (k, ks) e = absurd (colon_no_digit y k (cc))
colon_split (x ∷ p) [] r t (h, hs) k e = absurd (colon_no_digit x h (cc))
colon_split (x ∷ p) (y ∷ q) r t (h, hs) (k, ks) e =
    let (same, rest) = colon_split p q r t hs ks (cc) in (cc, rest)

file_identity_lem :
    (info : FileInfo) (dev ino : ℕ)
    → info.sys ≡ some (dev, ino)
    → file_identity info ≡ format_uint dev ++ b':' ∷ format_uint ino
unfolding file_identity bytes
file_identity_lem info dev ino h = rw (h, file_identity) refl

-- Two files with the same identity text have the same device and inode, where the system gives
-- both.
pub file_identity-injective :
    (info other : FileInfo) (dev ino dev' ino' : ℕ)
    → info.sys ≡ some (dev, ino)
    → other.sys ≡ some (dev', ino')
    → file_identity info ≡ file_identity other
    → (dev ≡ dev') × (ino ≡ ino')
file_identity-injective info other dev ino dev' ino' h k e =
    let (devs, inos) =
      colon_split (format_uint dev) (format_uint dev') (format_uint ino) (format_uint ino')
        (format_uint-IsDigit dev) (format_uint-IsDigit dev')
        (sym (file_identity_lem info dev ino h) ∙ e ∙ file_identity_lem other dev' ino' k) in
    (format_uint-injective dev dev' devs, format_uint-injective ino ino' inos)
