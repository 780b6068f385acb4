-- ===== src/Discovery/Paths.antt =====
-- The functions of the package path/filepath that internal/discovery/discovery.go calls on a path, for
-- the separator '/', and `addContainerAttributes`.
pub mod Laws
use log_collector.Base.{
  ℕ, Bool, true, false, Option, none, some, List, [], ◌∷◌, ◌++◌, ◌==◌, nat_eq, text_eq,
  if◌then◌else◌, ◌&&◌,
}
use log_collector.Base.Dict.{Dict, insert}
use log_collector.Base.Text.{Text, bytes, split_n, trim_suffix}

-- What stands before and behind the last `c`, if there is one.
unfoldable pub split_last : ℕ → Text → Option (Text × Text)
split_last c [] = none
split_last c (x ∷ s) = elim (split_last c s) [
  | some (before, behind) ↦ some (x ∷ before, behind)
  | none ↦ if x == c then some ([], s) else none
]

abbrev pub behind_last : ℕ → Text → Text
behind_last c s = elim (split_last c s) [ none ↦ s | some (before, behind) ↦ behind ]

-- `filepath.Ext`: from the last dot of the last element on.
unfoldable pub ext : Text → Text
unfolding split_last
ext path = elim (split_last b'.' (behind_last b'/' path)) [
  | none ↦ []
  | some (before, behind) ↦ b'.' ∷ behind
]

-- A path without the slashes at its end.
unfoldable pub trim_slashes : Text → Text
trim_slashes [] = []
trim_slashes (c ∷ s) =
    let rest = trim_slashes s in if (c == b'/') && (rest == []) then [] else c ∷ rest

-- `filepath.Base`
unfoldable pub base : Text → Text
unfolding split_last trim_slashes
base path =
    let last = behind_last b'/' (trim_slashes path) in
    if path == [] then b'.' ∷ [] else if last == [] then b'/' ∷ [] else last

-- The container's name and id; `LastIndex` must be positive.
unfoldable pub with_container : Text → Dict Text → Dict Text
unfolding bytes split_last
with_container part attrs = elim (split_last b'-' part) [
  | none ↦ attrs
  | some (name, id) ↦
      if name == []
      then attrs
      else insert (bytes "container.id") id (insert (bytes "k8s.container.name") name attrs)
]

unfoldable pub with_parts : List Text → Dict Text → Dict Text
unfolding bytes with_container
with_parts (pod ∷ namespace ∷ part ∷ []) attrs =
    with_container part
      (insert (bytes "k8s.namespace.name") namespace (insert (bytes "k8s.pod.name") pod attrs))
with_parts _ attrs = attrs

-- `addContainerAttributes`
unfoldable pub add_container_attributes : Dict Text → Text → Dict Text
unfolding with_parts base ext
add_container_attributes attrs path =
    with_parts (split_n b'_' 2 (trim_suffix (base path) (ext path))) attrs
