-- ===== src/Discovery/Cycle/Laws.antt =====
-- internal/discovery/discovery.go, `deduplicate` and `Discover`: the targets of a round and the paths
-- that stay known.
use log_collector.Base.{
  ◌≡◌, refl, ap, sym, ◌∙◌, inl, inr, Bool, true, false, any, Option, none, some, List, [], ◌∷◌,
  ◌==◌, text_eq, map, Elem, here, there, Bool-cases, ==→≡, ≡→==, if◌then◌else◌, arith,
}
use log_collector.Base.Member.{any_sound, any_complete}
use log_collector.Base.Int.{ℤ, pos, ◌-ℤ◌, ltb_ℤ, ◌≤ℤ◌, -ℤ_parts}
use log_collector.Base.Dict.{
  Dict, lookup, insert, erase, NodupKeys, insert-NodupKeys, lookup-insert, lookup-erase,
}
use log_collector.Base.Text.{Text}
use log_collector.Model.{FileTarget, Time}
use log_collector.Config.Valid.{AreDistinct}
use log_collector.Discovery.Rules.{Discovery}
use log_collector.Discovery.Cycle.{prepare_resource, unique_targets, forget, deduplicate}

-- The first target of a path.
abbrev pub first_of : Text → List FileTarget → Option FileTarget
first_of path [] = none
first_of path (t ∷ ts) = if t.path == path then some t else first_of path ts

abbrev pub paths : List FileTarget → List Text
paths = map (λ t. t.path)

abbrev pub prepared : Option FileTarget → Option FileTarget
prepared none = none
prepared (some t) = some (prepare_resource t)

unique_targets-AreDistinct :
    (now : Time) (cycle : List Text) (seen : Dict Time) (ts : List FileTarget)
    → AreDistinct cycle (paths (unique_targets now cycle seen ts).0)
unfolding unique_targets prepare_resource
unique_targets-AreDistinct now cycle seen [] = tt
unique_targets-AreDistinct now cycle seen (t ∷ ts) =
    elim (Bool-cases (any (λ p. p == t.path) cycle)) [
      | inl known ↦ rw known (unique_targets-AreDistinct now cycle seen ts)
      | inr new ↦ rw new (
        (λ m. let e = any_complete t.path cycle m in cc),
        unique_targets-AreDistinct now (t.path ∷ cycle) (insert t.path now seen) ts,
      )
    ]

-- Of each path outside the cycle, the first target is kept.
first_of-unique_targets :
    (now : Time) (path : Text) (cycle : List Text) (seen : Dict Time) (ts : List FileTarget)
    → first_of path (unique_targets now cycle seen ts).0
      ≡ (if any (λ p. p == path) cycle then none else prepared (first_of path ts))
unfolding unique_targets prepare_resource
first_of-unique_targets now path cycle seen [] = elim (Bool-cases (any (λ p. p == path) cycle)) [
  | inl e ↦ rw e refl
  | inr e ↦ rw e refl
]
first_of-unique_targets now path cycle seen (t ∷ ts) =
    let skipped = first_of-unique_targets now path cycle seen ts in
    let after = first_of-unique_targets now path (t.path ∷ cycle) (insert t.path now seen) ts in
    elim (Bool-cases (t.path == path)) [
      | inl same ↦
          let moved : any (λ p. p == t.path) cycle ≡ any (λ p. p == path) cycle =
            ap (λ q. any (λ p. p == q) cycle) (==→≡ _ _ same) in
          elim (Bool-cases (any (λ p. p == t.path) cycle)) [
            | inl known ↦ let gone = sym moved ∙ known in rw (known, gone) (skipped ∙ rw gone refl)
            | inr new ↦ let left = sym moved ∙ new in rw (new, left, same) refl
          ]
      | inr other ↦ elim (Bool-cases (any (λ p. p == t.path) cycle)) [
        | inl known ↦ rw (known, other) skipped
        | inr new ↦ rw (new, other) (rw other at after)
      ]
    ]

either_way {ℓ} : {A : Type ℓ} (b : Bool) (x o : A) → o ≡ x → (if b then x else o) ≡ x
either_way true x o e = refl
either_way false x o e = e

-- The table after a path is entered.
entered :
    (now : Time) (path : Text) (cycle : List Text) (seen : Dict Time)
    → ((p : Text) → Elem p cycle → lookup p seen ≡ some now)
    → (p : Text) → Elem p (path ∷ cycle)
    → lookup p (insert path now seen) ≡ some now
entered now path cycle seen h p (here e) = lookup-insert p path now seen ∙ rw (≡→== (sym e)) refl
entered now path cycle seen h p (there m) =
    lookup-insert p path now seen ∙ either_way (path == p) (some now) (lookup p seen) (h p m)

-- What the loop leaves in the table: the time of this cycle for the paths that it has met.
lookup-unique_targets :
    (now : Time) (path : Text) (cycle : List Text) (seen : Dict Time) (ts : List FileTarget)
    → ((p : Text) → Elem p cycle → lookup p seen ≡ some now)
    → lookup path (unique_targets now cycle seen ts).1
      ≡ (if any (λ p. p == path) (paths ts) then some now else lookup path seen)
unfolding unique_targets
lookup-unique_targets now path cycle seen [] h = refl
lookup-unique_targets now path cycle seen (t ∷ ts) h =
    let skipped = lookup-unique_targets now path cycle seen ts h in
    let after =
      lookup-unique_targets now path (t.path ∷ cycle) (insert t.path now seen) ts
        (entered now t.path cycle seen h) in
    let into = lookup-insert path t.path now seen in
    let met : Bool = any (λ p. p == path) (paths ts) in
    elim (Bool-cases (any (λ p. p == t.path) cycle)) [
      | inl known ↦ elim (Bool-cases (t.path == path)) [
        | inl same ↦
            rw (known, same)
              (skipped
                ∙ either_way met (some now) (lookup path seen) (
                    ap (λ q. lookup q seen) (sym (==→≡ _ _ same))
                    ∙ h t.path (any_sound t.path cycle known)))
        | inr other ↦ rw (known, other) skipped
      ]
      | inr new ↦ elim (Bool-cases (t.path == path)) [
        | inl same ↦ rw (new, same) (after ∙ either_way met (some now) _ (into ∙ rw same refl))
        | inr other ↦
            rw (new, other) (after ∙ ap (λ o. if met then some now else o) (into ∙ rw other refl))
      ]
    ]

unique_targets-NodupKeys :
    (now : Time) (cycle : List Text) (seen : Dict Time) (ts : List FileTarget)
    → NodupKeys seen
    → NodupKeys (unique_targets now cycle seen ts).1
unfolding unique_targets
unique_targets-NodupKeys now cycle seen [] u = u
unique_targets-NodupKeys now cycle seen (t ∷ ts) u =
    elim (Bool-cases (any (λ p. p == t.path) cycle)) [
      | inl known ↦ rw known (unique_targets-NodupKeys now cycle seen ts u)
      | inr new ↦ rw new (
          unique_targets-NodupKeys now (t.path ∷ cycle) (insert t.path now seen) ts
            (insert-NodupKeys t.path now seen u))
    ]

-- A path after the step of `forget` on some path.
lookup-erase_if :
    (old : Bool) (path k : Text) (seen : Dict Time)
    → lookup path (if old then erase k seen else seen)
      ≡ (if k == path then (if old then none else lookup path seen) else lookup path seen)
lookup-erase_if true path k seen = lookup-erase path k seen
lookup-erase_if false path k seen = elim (Bool-cases (k == path)) [
  | inl e ↦ rw e refl
  | inr e ↦ rw e refl
]

-- What a path's own entry decides.
abbrev kept : Time → ℤ → Option Time → Option Time → Option Time
kept now cache_ttl none o = o
kept now cache_ttl (some last) o = if ltb_ℤ cache_ttl (now -ℤ last) then none else o

lookup-forget :
    (now : Time) (cache_ttl : ℤ) (path : Text) (entries seen : Dict Time)
    → NodupKeys entries
    → lookup path (forget now cache_ttl entries seen)
      ≡ kept now cache_ttl (lookup path entries) (lookup path seen)
unfolding forget lookup
lookup-forget now cache_ttl path [] seen u = refl
lookup-forget now cache_ttl path ((k, last) ∷ entries) seen (fresh, u) =
    let old : Bool = ltb_ℤ cache_ttl (now -ℤ last) in
    let later = lookup-forget now cache_ttl path entries (if old then erase k seen else seen) u in
    let own = lookup-erase_if old path k seen in
    elim (Bool-cases (k == path)) [
      | inl same ↦ rw same (
          later
          ∙ ap (λ o. kept now cache_ttl o (lookup path (if old then erase k seen else seen)))
              (ap (λ q. lookup q entries) (sym (==→≡ _ _ same)) ∙ fresh)
          ∙ own
          ∙ rw same refl)
      | inr other ↦
          rw other (later ∙ ap (kept now cache_ttl (lookup path entries)) (own ∙ rw other refl))
    ]

kept_self :
    (now : Time) (cache_ttl : ℤ) (o : Option Time)
    → kept now cache_ttl o o ≡ elim o [
      | none ↦ none
      | some last ↦ if ltb_ℤ cache_ttl (now -ℤ last) then none else some last
    ]
kept_self now cache_ttl none = refl
kept_self now cache_ttl (some last) = refl

not_expired :
    (now : Time) (cache_ttl : ℤ) → pos 0 ≤ℤ cache_ttl → ltb_ℤ cache_ttl (now -ℤ now) ≡ false
not_expired now cache_ttl h = ground (arith, -ℤ_parts now now, h)

-- The times of the paths known: this round's for what it has found, and the old one of another path
-- until it is older than the limit.
abbrev pub remembered : Time → ℤ → List FileTarget → Dict Time → Text → Option Time
remembered now cache_ttl ts seen path =
    if any (λ p. p == path) (paths ts) then some now else elim (lookup path seen) [
      | none ↦ none
      | some last ↦ if ltb_ℤ cache_ttl (now -ℤ last) then none else some last
    ]

-- After deduplicate, no two targets have one path, and of each path the first target given is
-- kept, with its resource prepared. The table of seen paths then holds the time of this round for
-- the paths given, and of the others those that are not older than the limit, at their old time.
-- No path stands twice in the table before, and the limit is not negative.
pub deduplicate_lem :
    (now : Time) (d : Discovery) (ts : List FileTarget) (path : Text)
    → NodupKeys d.seen
    → pos 0 ≤ℤ d.cache_ttl
    → AreDistinct [] (paths (deduplicate now d ts).0)
      × (first_of path (deduplicate now d ts).0 ≡ prepared (first_of path ts))
      × (lookup path (deduplicate now d ts).1.seen ≡ remembered now d.cache_ttl ts d.seen path)
unfolding deduplicate
deduplicate_lem now d ts path u positive =
    let seen : Dict Time = (unique_targets now [] d.seen ts).1 in
    let own = lookup-unique_targets now path [] d.seen ts (λ p m. elim m [ ]) in
    (
      unique_targets-AreDistinct now [] d.seen ts,
      first_of-unique_targets now path [] d.seen ts,
      lookup-forget now d.cache_ttl path seen seen (unique_targets-NodupKeys now [] d.seen ts u)
          ∙ kept_self now d.cache_ttl (lookup path seen)
          ∙ elim (Bool-cases (any (λ p. p == path) (paths ts))) [
            | inl met ↦ rw (own, met, not_expired now d.cache_ttl positive) refl
            | inr other ↦ rw (own, other) refl
          ],
    )
