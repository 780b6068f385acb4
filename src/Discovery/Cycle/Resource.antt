-- ===== src/Discovery/Cycle/Resource.antt =====
-- internal/discovery/discovery.go, `prepareResource`, with internal/tailer/tailer.go, `preparedRecord`,
-- and internal/exporter/otlphttp.go, `BuildRequest`: the resource that is made once for a target.
use log_collector.Base.{ℕ, ◌≡◌, refl, none, some, [], ◌==◌, text_eq, Bool-cases, inl, inr}
use log_collector.Base.Text.{Text}
use log_collector.Model.{FileTarget, Record, Time}
use log_collector.Tailer.Severity.{parse_severity}
use log_collector.Tailer.Records.{
  Attributes, new_record, prepared_record, record_attributes-total, target_resource,
  fallback_resource, target_trace_id,
}
use log_collector.Exporter.Request.{attribute_key, group_key}
use log_collector.Discovery.Cycle.{resource_of, prepare_resource, reported_path}

-- A target as the rules make it, without a resource.
abbrev pub bare : FileTarget → FileTarget
bare t = record t { resource_attributes = none; resource_key = [] }

abbrev pub without_key : Record → Record
without_key r = record r { resource_key = [] }

group_key-without_key :
    (unix_nano : Time → ℕ) (r : Record)
    → r.resource_key ≡ attribute_key r.resource_attributes
    → group_key unix_nano r ≡ group_key unix_nano (without_key r)
unfolding group_key text_eq
group_key-without_key unix_nano r e = elim (Bool-cases (r.resource_key == [])) [
  | inl empty ↦ rw empty refl
  | inr made ↦ rw made e
]

-- The resource that prepareResource makes once for a target is the one that preparedRecord makes
-- for each record of a target without it: the records differ at most in their resource key, and
-- BuildRequest puts both under the same key.
pub prepared_record-prepare_resource :
    (unix_nano : Time → ℕ) (t : FileTarget) (body : Text) (timestamp : Time) (attrs : Attributes)
    → (r : Record) × (prepared_record (prepare_resource (bare t)) body timestamp attrs ≡ some r)
      × (prepared_record (bare t) body timestamp attrs ≡ some (without_key r))
      × (group_key unix_nano r ≡ group_key unix_nano (without_key r))
unfolding prepare_resource resource_of reported_path prepared_record group_key target_resource
    fallback_resource target_trace_id
prepared_record-prepare_resource unix_nano t body timestamp attrs =
    let (severity, number) = parse_severity body in
    let (attrs', e) = record_attributes-total severity body t.extractors attrs in
    let r = new_record (prepare_resource (bare t)) body timestamp severity number attrs' in
    (
      r,
      rw (e, prepared_record) refl,
      rw (e, prepared_record) refl,
      group_key-without_key unix_nano r refl,
    )
