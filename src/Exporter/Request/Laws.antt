-- ===== src/Exporter/Request/Laws.antt =====
-- internal/exporter/otlphttp.go, `BuildRequest`: its groups.
use log_collector.Base.{
  ℕ, ◌≡◌, refl, ap, sym, ◌∙◌, inl, inr, Option, none, some, List, [], ◌∷◌, ◌++◌, ◌==◌, text_eq, map,
  Bool-cases, ==→≡, append_assoc, append-nil, if◌then◌else◌,
}
use log_collector.Base.Dict.{Dict, lookup, insert, NodupKeys, lookup-insert, insert-NodupKeys}
use log_collector.Base.Text.{Text}
use log_collector.Model.{Record, Time}
use log_collector.Exporter.Request.{attribute_key, Group, log_record, group_key, grow, group_all}

module _ (unix_nano : Time → ℕ) where
  -- The key of a record's resource: the one that it brings, or else that of its attributes.
  abbrev pub resource_key_of : Record → Text
  resource_key_of r =
      if r.resource_key == [] then attribute_key r.resource_attributes else r.resource_key

  -- The records of a key.
  abbrev pub of_key : Text → List Record → List Record
  of_key k [] = []
  of_key k (r ∷ rs) = if resource_key_of r == k then r ∷ of_key k rs else of_key k rs

  -- A group with further records.
  abbrev gather : Option Group → List Record → Option Group
  gather o [] = o
  gather o (r ∷ rs) = gather (some (grow unix_nano r o)) rs

  -- The group that records make.
  abbrev pub group_of : List Record → Option Group
  group_of [] = none
  group_of (r ∷ rs) =
      some (record { attrs = r.resource_attributes; records = map (log_record unix_nano) (r ∷ rs) })

  gather-some :
      (g : Group) (rs : List Record)
      → gather (some g) rs
        ≡ some (record g { records = g.records ++ map (log_record unix_nano) rs })
  unfolding grow
  gather-some g [] = ap (λ l. some (record g { records = l })) (sym (append-nil g.records))
  gather-some g (r ∷ rs) =
      gather-some (record g { records = g.records ++ log_record unix_nano r ∷ [] }) rs
      ∙ ap (λ l. some (record g { records = l }))
          (append_assoc g.records (log_record unix_nano r ∷ []) (map (log_record unix_nano) rs))

  gather-none : (rs : List Record) → gather none rs ≡ group_of rs
  unfolding grow
  gather-none [] = refl
  gather-none (r ∷ rs) =
      gather-some (record { attrs = r.resource_attributes; records = log_record unix_nano r ∷ [] })
        rs

  lookup-group_all :
      (k : Text) (rs : List Record) (groups : Dict Group)
      → lookup k (group_all unix_nano rs groups) ≡ gather (lookup k groups) (of_key k rs)
  unfolding group_all group_key
  lookup-group_all k [] groups = refl
  lookup-group_all k (r ∷ rs) groups =
      let key = resource_key_of r in
      let g = grow unix_nano r (lookup key groups) in
      let here = lookup-insert k key g groups in
      lookup-group_all k rs (insert key g groups) ∙ elim (Bool-cases (key == k)) [
        | inl same ↦
            rw (here, same)
              (ap (λ o. gather (some (grow unix_nano r o)) (of_key k rs))
                (ap (λ j. lookup j groups) (==→≡ key k same)))
        | inr other ↦ rw (here, other) refl
      ]

  group_all-NodupKeys :
      (rs : List Record) (groups : Dict Group)
      → NodupKeys groups
      → NodupKeys (group_all unix_nano rs groups)
  unfolding group_all
  group_all-NodupKeys [] groups h = h
  group_all-NodupKeys (r ∷ rs) groups h = group_all-NodupKeys rs _ (insert-NodupKeys _ _ groups h)

  -- The records of a request are grouped by the key of their resource, which is the one that a
  -- record brings, or else that of its resource attributes: no key has two groups, and the group
  -- of a key holds exactly the log records of the records with that key, in order, under the
  -- attributes of the first of them; a key without records has no group.
  pub group_all_lem :
      (k : Text) (rs : List Record)
      → NodupKeys (group_all unix_nano rs [])
        × (lookup k (group_all unix_nano rs []) ≡ group_of (of_key k rs))
  unfolding lookup
  group_all_lem k rs =
      (group_all-NodupKeys rs [] tt, lookup-group_all k rs [] ∙ gather-none (of_key k rs))
