-- ===== src/Discovery/Cycle.antt =====
-- internal/discovery/discovery.go: `Discover`, `deduplicate`, `prepareResource`, `reportedPath` and
-- `errorsJoin`.
pub mod Laws
pub mod Resource
use log_collector.Base.{
  ℕ, Bool, true, false, not, any, Option, none, some, List, [], ◌∷◌, ◌++◌, ◌==◌, text_eq,
  if◌then◌else◌, ◌&&◌, ltb, length,
}
use log_collector.Base.Int.{ℤ, ◌-ℤ◌, ltb_ℤ}
use log_collector.Base.Dict.{Dict, lookup, insert, erase}
use log_collector.Base.Text.{Text, bytes}
use log_collector.Model.{FileTarget, Time}
use log_collector.Exporter.Request.{attribute_key}
use log_collector.Discovery.Rules.{Discovery, CompiledFileRule}
use log_collector.Discovery.Files.{discover_files}
use log_collector.Discovery.Processes.{Process, discover_process}

-- `reportedPath`
unfoldable pub reported_path : FileTarget → Text
reported_path t = if t.reported_path == [] then t.path else t.reported_path

unfoldable pub resource_of : FileTarget → Dict Text
unfolding bytes reported_path
resource_of t = insert (bytes "log.source.rule") t.rule (
    insert (bytes "log.source.type") t.source_type
      (insert (bytes "log.file.path") (reported_path t) t.attributes))

-- `prepareResource`; its key is built the way of `attributeKey` of the exporter.
unfoldable pub prepare_resource : FileTarget → FileTarget
unfolding resource_of
prepare_resource t = record t {
  resource_attributes = some (resource_of t);
  resource_key = attribute_key (resource_of t);
}

-- The loop of `deduplicate`: the paths of the cycle so far and what was seen.
unfoldable pub unique_targets :
    Time → List Text → Dict Time → List FileTarget → List FileTarget × Dict Time
unfolding prepare_resource
unique_targets now cycle seen [] = ([], seen)
unique_targets now cycle seen (t ∷ ts) =
    let skipped = unique_targets now cycle seen ts in
    let (rest, later) = unique_targets now (t.path ∷ cycle) (insert t.path now seen) ts in
    if any (λ p. p == t.path) cycle then skipped else (prepare_resource t ∷ rest, later)

-- The loop that forgets paths.
unfoldable pub forget : Time → ℤ → Dict Time → Dict Time → Dict Time
forget now cache_ttl [] seen = seen
forget now cache_ttl ((path, last_seen) ∷ entries) seen =
    forget now cache_ttl entries
      (if ltb_ℤ cache_ttl (now -ℤ last_seen) then erase path seen else seen)

-- `deduplicate`
unfoldable pub deduplicate : Time → Discovery → List FileTarget → List FileTarget × Discovery
unfolding unique_targets forget
deduplicate now d targets =
    let (unique, seen) = unique_targets now [] d.seen targets in
    (unique, record d { seen = forget now d.cache_ttl seen seen })

join_with : Text → List Text → Text
join_with separator [] = []
join_with separator (e ∷ es) = separator ++ e ++ join_with separator es

-- `errorsJoin`
unfoldable pub errors_join : List Text → Option Text
unfolding join_with bytes
errors_join [] = none
errors_join (e ∷ es) = some (e ++ join_with (bytes "; ") es)

-- What the system shows in one round: the processes, and the error of listing them.
pub record Snapshot : Type 0 where
  pub processes : List Process
  pub error : Option Text

module _ (join : List Text → Text) (glob : Text → List Text) (is_regular : Text → Bool) where
  abbrev pub collect_processes : Discovery → List Process → List FileTarget
  collect_processes d [] = []
  collect_processes d (p ∷ ps) =
      discover_process join is_regular d.process_rules p ++ collect_processes d ps

  abbrev pub collect_files : Text → List CompiledFileRule → List FileTarget
  collect_files source_type [] = []
  collect_files source_type (r ∷ rs) =
      discover_files glob is_regular source_type r ++ collect_files source_type rs

  unfoldable pub found : Discovery → Snapshot → List FileTarget
  unfolding bytes
  found d s =
      (if ltb 0 (length d.process_rules) then collect_processes d s.processes else [])
      ++ collect_files (bytes "file") d.files
      ++ collect_files (bytes "container") d.containers

  unfoldable pub listing_errors : Discovery → Snapshot → List Text
  unfolding bytes
  listing_errors d s = elim s.error [
    | none ↦ []
    | some e ↦ if ltb 0 (length d.process_rules) then (bytes "list processes: " ++ e) ∷ [] else []
  ]

  -- `Discover`
  unfoldable pub discover : Time → Discovery → Snapshot → List FileTarget × Option Text × Discovery
  unfolding found listing_errors deduplicate errors_join
  discover now d s =
      let (targets, d') = deduplicate now d (found d s) in
      (targets, errors_join (listing_errors d s), d')
