-- ===== src/Discovery/Paths/Laws.antt =====
-- internal/discovery/discovery.go, `addContainerAttributes`: the attributes that a container's path holds.
use log_collector.Base.{
  ℕ, suc, ◌-◌, ◌≡◌, ◌≢◌, refl, sym, ◌∙◌, Bool, true, false, ◌&&◌, none, some, [], ◌∷◌, ◌++◌, ◌==◌,
  nat_eq, text_eq, All, All-append, length, length-append, take-append_le, take_all,
  drop-append_length, if◌then◌else◌, subst, Bool-cases, ==_refl, ==→≡, inl, inr, arith,
  append_assoc,
}
use log_collector.Base.Dict.{Dict, lookup, insert, lookup-insert}
use log_collector.Base.Text.{Text, bytes, split_n, trim_suffix}
use log_collector.Discovery.Paths.{
  split_last, behind_last, ext, trim_slashes, base, with_container, with_parts,
  add_container_attributes,
}

-- A text that does not hold the byte.
abbrev pub Without : ℕ → Text → Type 0
Without c = All (λ x. x ≢ c)

split_last-Without : (c : ℕ) (s : Text) → Without c s → split_last c s ≡ none
unfolding split_last
split_last-Without c [] h = refl
split_last-Without c (x ∷ s) (h, k) = ground (arith, split_last-Without c s k)

split_last-append : (c : ℕ) (p s : Text) → Without c s → split_last c (p ++ c ∷ s) ≡ some (p, s)
unfolding split_last
split_last-append c [] s h = rw (split_last-Without c s h) (ground arith)
split_last-append c (x ∷ p) s h = rw (split_last-append c p s h) refl

behind_last-append : (c : ℕ) (p s : Text) → Without c s → behind_last c (p ++ c ∷ s) ≡ s
behind_last-append c p s h = rw (split_last-append c p s h, behind_last) refl

split_n_all : (c : ℕ) (s : Text) → split_n c 0 s ≡ s ∷ []
unfolding split_n
split_n_all c s = refl

split_n-append :
    (c n : ℕ) (p s : Text) → Without c p → split_n c (suc n) (p ++ c ∷ s) ≡ p ∷ split_n c n s
unfolding split_n
split_n-append c n [] s h = ground arith
split_n-append c n (x ∷ p) s (h, k) = ground (arith, split_n-append c n p s k)

not_trimmed :
    (b : Bool) (c d : ℕ) (s : Text) → (if b && ((d ∷ s) == []) then [] else c ∷ d ∷ s) ≡ c ∷ d ∷ s
unfolding text_eq
not_trimmed true c d s = refl
not_trimmed false c d s = refl

trim_slashes_last : (s : Text) (x : ℕ) → x ≢ b'/' → trim_slashes (s ++ x ∷ []) ≡ s ++ x ∷ []
unfolding trim_slashes
trim_slashes_last [] x h = ground arith
trim_slashes_last (c ∷ []) x h = rw (trim_slashes_last [] x h) (not_trimmed (c == b'/') c x [])
trim_slashes_last (c ∷ d ∷ s) x h =
    rw (trim_slashes_last (d ∷ s) x h) (not_trimmed (c == b'/') c d (s ++ x ∷ []))

trim_suffix-append : (s t : Text) → trim_suffix (s ++ t) t ≡ s
unfolding trim_suffix
trim_suffix-append s t =
    let n : length (s ++ t) - length t ≡ length s = omega (arith, length-append s t) in
    rw (n, drop-append_length s t)
      (ground
        (arith, take-append_le (length s) s t (omega arith), take_all (length s) s (omega arith)))

append-not_empty : (p s : Text) (c : ℕ) → ((p ++ c ∷ s) == []) ≡ false
unfolding text_eq
append-not_empty [] s c = refl
append-not_empty (d ∷ p) s c = refl

base-append :
    (dir p : Text) (x : ℕ)
    → Without b'/' (p ++ x ∷ [])
    → x ≢ b'/'
    → base (dir ++ b'/' ∷ (p ++ x ∷ [])) ≡ p ++ x ∷ []
unfolding base
base-append dir p x h k =
    let trimmed : trim_slashes (dir ++ b'/' ∷ (p ++ x ∷ [])) ≡ dir ++ b'/' ∷ (p ++ x ∷ []) =
      subst (λ s. trim_slashes s ≡ s) (append_assoc dir (b'/' ∷ p) (x ∷ []))
        (trim_slashes_last (dir ++ b'/' ∷ p) x k) in
    rw
      (
        trimmed,
        behind_last-append b'/' dir (p ++ x ∷ []) h,
        append-not_empty dir (p ++ x ∷ []) b'/',
        append-not_empty p [] x,
        base,
      )
      refl

ext-append :
    (dir p e : Text)
    → Without b'/' (p ++ b'.' ∷ e)
    → Without b'.' e
    → ext (dir ++ b'/' ∷ (p ++ b'.' ∷ e)) ≡ b'.' ∷ e
unfolding ext
ext-append dir p e h k =
    rw (behind_last-append b'/' dir (p ++ b'.' ∷ e) h, split_last-append b'.' p e k, ext) refl

-- The path of a container's log, `dir/pod_namespace_name-id.log`.
abbrev pub log_path : Text → Text → Text → Text → Text → Text
log_path dir pod namespace name id =
    dir
    ++ b'/'
      ∷ ((pod ++ b'_' ∷ (namespace ++ b'_' ∷ (name ++ b'-' ∷ id)))
          ++ b'.' ∷ b'l' ∷ b'o' ∷ b'g' ∷ [])

-- The four attributes of a container, set on others.
abbrev pub HoldsContainer : Dict Text → Text → Text → Text → Text → Type 0
HoldsContainer attrs pod namespace name id =
    (lookup (bytes "k8s.pod.name") attrs ≡ some pod)
    × (lookup (bytes "k8s.namespace.name") attrs ≡ some namespace)
    × (lookup (bytes "k8s.container.name") attrs ≡ some name)
    × (lookup (bytes "container.id") attrs ≡ some id)

lookup_hit : (k v : Text) (d : Dict Text) → lookup k (insert k v d) ≡ some v
lookup_hit k v d = lookup-insert k k v d ∙ rw (==_refl k) refl

lookup_miss :
    (j k v : Text) (d : Dict Text) → (j == k) ≡ false → lookup k (insert j v d) ≡ lookup k d
lookup_miss j k v d e = lookup-insert k j v d ∙ rw e refl

inserts-HoldsContainer :
    (attrs : Dict Text) (pod namespace name id : Text)
    → HoldsContainer
        (insert (bytes "container.id") id (
          insert (bytes "k8s.container.name") name (
            insert
              (bytes "k8s.namespace.name")
              namespace
              (insert (bytes "k8s.pod.name") pod attrs))))
        pod
        namespace
        name
        id
unfolding bytes text_eq
inserts-HoldsContainer attrs pod namespace name id =
    let p = bytes "k8s.pod.name" in
    let n = bytes "k8s.namespace.name" in
    let c = bytes "k8s.container.name" in
    let i = bytes "container.id" in
    let d1 = insert p pod attrs in
    let d2 = insert n namespace d1 in
    let d3 = insert c name d2 in
    (
      lookup_miss i p id d3 refl
          ∙ lookup_miss c p name d2 refl
          ∙ lookup_miss n p namespace d1 refl
          ∙ lookup_hit p pod attrs,
      lookup_miss i n id d3 refl ∙ lookup_miss c n name d2 refl ∙ lookup_hit n namespace d1,
      lookup_miss i c id d3 refl ∙ lookup_hit c name d2,
      lookup_hit i id d3,
    )

with_container-append :
    (attrs : Dict Text) (name id : Text)
    → name ≢ []
    → Without b'-' id
    → with_container (name ++ b'-' ∷ id) attrs
      ≡ insert (bytes "container.id") id (insert (bytes "k8s.container.name") name attrs)
unfolding with_container
with_container-append attrs name id h k = elim (Bool-cases (name == [])) [
  | inl empty ↦ absurd (h (==→≡ _ _ empty))
  | inr fine ↦ rw (split_last-append b'-' name id k, fine, with_container) refl
]

stem_of_path :
    (dir pod namespace name id : Text)
    → Without b'/' (pod ++ b'_' ∷ (namespace ++ b'_' ∷ (name ++ b'-' ∷ id)))
    → let path = log_path dir pod namespace name id in
      trim_suffix (base path) (ext path) ≡ pod ++ b'_' ∷ (namespace ++ b'_' ∷ (name ++ b'-' ∷ id))
stem_of_path dir pod namespace name id h =
    let stem = pod ++ b'_' ∷ (namespace ++ b'_' ∷ (name ++ b'-' ∷ id)) in
    let suffix : Text = b'.' ∷ b'l' ∷ b'o' ∷ b'g' ∷ [] in
    let clean : Without b'/' (stem ++ suffix) =
      All-append (λ x. x ≢ b'/') stem suffix h
        (((λ e. cc), ((λ e. cc), ((λ e. cc), ((λ e. cc), tt))))) in
    let split = append_assoc stem (b'.' ∷ b'l' ∷ b'o' ∷ []) (b'g' ∷ []) in
    let name_of : base (dir ++ b'/' ∷ (stem ++ suffix)) ≡ stem ++ suffix =
      subst (λ s. base (dir ++ b'/' ∷ s) ≡ s) split
        (base-append dir (stem ++ b'.' ∷ b'l' ∷ b'o' ∷ []) b'g'
          (subst (Without b'/') (sym split) clean) (λ e. cc)) in
    rw
      (
        name_of,
        ext-append dir stem (b'l' ∷ b'o' ∷ b'g' ∷ []) clean
            ((λ e. cc), ((λ e. cc), ((λ e. cc), tt))),
      )
      (trim_suffix-append stem suffix)

-- From the path dir/pod_namespace_name-id.log, the attributes get back the pod, the namespace,
-- the name and the id of the container, where none of the four holds a slash, the pod and the
-- namespace no underscore, the id no dash, and the name is not empty.
pub add_container_attributes-log_path :
    (attrs : Dict Text) (dir pod namespace name id : Text)
    → Without b'/' pod
    → Without b'_' pod
    → Without b'/' namespace
    → Without b'_' namespace
    → Without b'/' name
    → name ≢ []
    → Without b'/' id
    → Without b'-' id
    → HoldsContainer
        (add_container_attributes attrs (log_path dir pod namespace name id))
        pod
        namespace
        name
        id
unfolding add_container_attributes with_parts
add_container_attributes-log_path attrs dir pod namespace name id p p' n n' c c' i i' =
    let last = name ++ b'-' ∷ id in
    let clean : Without b'/' (pod ++ b'_' ∷ (namespace ++ b'_' ∷ last)) =
      All-append (λ x. x ≢ b'/') pod (b'_' ∷ (namespace ++ b'_' ∷ last)) p
        (
          (λ e. cc),
          All-append (λ x. x ≢ b'/') namespace (b'_' ∷ last) n
              ((λ e. cc), All-append (λ x. x ≢ b'/') name (b'-' ∷ id) c ((λ e. cc), i)),
        ) in
    rw
      (
        stem_of_path dir pod namespace name id clean,
        split_n-append b'_' 1 pod (namespace ++ b'_' ∷ last) p',
        split_n-append b'_' 0 namespace last n',
        split_n_all b'_' last,
        with_container-append
            (insert (bytes "k8s.namespace.name") namespace
              (insert (bytes "k8s.pod.name") pod attrs))
            name id c' i',
      )
      (inserts-HoldsContainer attrs pod namespace name id)
