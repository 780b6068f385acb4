-- ===== src/Tailer/Records.antt =====
-- internal/tailer/tailer.go: `preparedRecord`. A write to a nil map panics in Go; here `none`.
use log_collector.Base.{
  ℕ, ◌≡◌, ◌↔◌, refl, ◌∙◌, Elem, true, false, not, ◌||◌, Option, none, some, List, [], ◌∷◌, ◌==◌,
  text_eq, nat_eq, any, ltb, length, if◌then◌else◌, arith, Bool-cases, Option-cases, inl, inr,
}
use log_collector.Base.Member.{any_sound, any_complete}
use log_collector.Base.Dict.{Dict, insert}
use log_collector.Base.Text.{Text, bytes}
use log_collector.Model.{FileTarget, AttributeExtractor, Record, Time, zero_time}
use log_collector.Tailer.Severity.{parse_severity}
use log_collector.Tailer.TraceId.{parse_trace_id}

-- A Go map that may be nil.
abbrev pub Attributes : Type 0
Attributes = Option (Dict Text)

-- `attrs[key] = value`
unfoldable pub assign : Text → Text → Attributes → Option Attributes
assign key value none = none
assign key value (some d) = some (some (insert key value d))

-- `match[1]`, if the match has it.
abbrev pub group_one : List Text → Option Text
group_one (whole ∷ m ∷ rest) = some m
group_one _ = none

-- The first capture group, if it is there and not empty.
unfoldable pub extracted : AttributeExtractor → Text → Option Text
extracted extractor body = elim (group_one (extractor.pattern.find_submatch body)) [
  | none ↦ none
  | some m ↦ if m == [] then none else some m
]

-- The loop over the extractors.
unfoldable pub extract_all : List AttributeExtractor → Text → Attributes → Option Attributes
unfolding assign extracted
extract_all [] body attrs = some attrs
extract_all (extractor ∷ rest) body attrs = elim (extracted extractor body) [
  | none ↦ extract_all rest body attrs
  | some m ↦ elim (assign extractor.key m attrs) [
    | none ↦ none
    | some attrs' ↦ extract_all rest body attrs'
  ]
]

-- `attrs == nil` is replaced by a new map where something may be written.
abbrev made : Attributes → Attributes
made none = some []
made (some d) = some d

ready : Text → List AttributeExtractor → Attributes → Attributes
ready severity extractors attrs =
    if not (severity == []) || ltb 0 (length extractors) then made attrs else attrs

with_level : Text → Attributes → Option Attributes
unfolding assign bytes
with_level severity attrs =
    if severity == [] then some attrs else assign (bytes "log.level") severity attrs

unfoldable pub record_attributes :
    Text → Text → List AttributeExtractor → Attributes → Option Attributes
unfolding extract_all ready with_level
record_attributes severity body extractors attrs =
    elim (with_level severity (ready severity extractors attrs)) [
      | none ↦ none
      | some attrs' ↦ extract_all extractors body attrs'
    ]

-- The attributes of the resource, as `preparedRecord` makes them where discovery has not.
unfoldable pub fallback_resource : FileTarget → Dict Text
unfolding bytes
fallback_resource target = insert (bytes "log.source.rule") target.rule (
    insert (bytes "log.source.type") target.source_type (
      insert (bytes "log.file.path")
        (if target.reported_path == [] then target.path else target.reported_path)
        target.attributes))

unfoldable pub target_resource : FileTarget → Dict Text
unfolding fallback_resource
target_resource target = elim target.resource_attributes [
  | none ↦ fallback_resource target
  | some resource ↦ resource
]

unfoldable pub target_trace_id : FileTarget → Text → Text
target_trace_id target body = elim target.trace_id_extractor [
  | none ↦ []
  | some pattern ↦ elim (group_one (pattern.find_submatch body)) [
    | none ↦ []
    | some m ↦ parse_trace_id m target.trace_id_completion
  ]
]

abbrev pub new_record : FileTarget → Text → Time → Text → ℕ → Attributes → Record
new_record target body timestamp severity number attrs = record {
  body = body;
  timestamp = timestamp;
  observed_timestamp = zero_time;
  severity_text = severity;
  severity_number = number;
  dropped = any (λ level. level == severity) target.drop_levels;
  trace_id = target_trace_id target body;
  attributes = attrs;
  resource_attributes = target_resource target;
  resource_key = target.resource_key;
}

-- `preparedRecord`; `none` is a panic.
unfoldable pub prepared_record : FileTarget → Text → Time → Attributes → Option Record
prepared_record target body timestamp attrs =
    let (severity, number) = parse_severity body in
    elim (record_attributes severity body target.extractors attrs) [
      | none ↦ none
      | some attrs' ↦ some (new_record target body timestamp severity number attrs')
    ]

extract_all-some :
    (extractors : List AttributeExtractor) (body : Text) (d : Dict Text)
    → (d' : Dict Text) × (extract_all extractors body (some d) ≡ some (some d'))
unfolding extract_all
extract_all-some [] body d = (d, refl)
extract_all-some (x ∷ xs) body d = elim (Option-cases (extracted x body)) [
  | inl e ↦ let (d', f) = extract_all-some xs body d in (d', rw (e, extract_all) f)
  | inr (m, e) ↦
      let (d', f) = extract_all-some xs body (insert x.key m d) in (d', rw (e, extract_all) f)
]

made-some : (attrs : Attributes) → (d : Dict Text) × (made attrs ≡ some d)
made-some none = ([], refl)
made-some (some d) = (d, refl)

with_level-some :
    (severity : Text) (d : Dict Text)
    → (d' : Dict Text) × (with_level severity (some d) ≡ some (some d'))
unfolding with_level assign bytes
with_level-some severity d = elim (Bool-cases (severity == [])) [
  | inl e ↦ (d, rw e refl)
  | inr e ↦ (insert (bytes "log.level") severity d, rw e refl)
]

-- With a map at hand nothing can go wrong.
record_attributes-some :
    (severity body : Text) (extractors : List AttributeExtractor) (attrs : Attributes)
    (d : Dict Text)
    → ready severity extractors attrs ≡ some d
    → (attrs' : Attributes) × (record_attributes severity body extractors attrs ≡ some attrs')
unfolding record_attributes
record_attributes-some severity body extractors attrs d e =
    let (d', f) = with_level-some severity d in
    let (d'', g) = extract_all-some extractors body d' in (some d'', rw (e, f, record_attributes) g)

ready_extractors :
    (severity : Text) (x : AttributeExtractor) (xs : List AttributeExtractor) (attrs : Attributes)
    → ready severity (x ∷ xs) attrs ≡ made attrs
unfolding ready
ready_extractors severity x xs attrs = ground arith

ready_level :
    (severity : Text) (attrs : Attributes)
    → (severity == []) ≡ false
    → ready severity [] attrs ≡ made attrs
unfolding ready
ready_level severity attrs level = rw level refl

record_attributes_none :
    (severity body : Text) (attrs : Attributes)
    → (severity == []) ≡ true
    → record_attributes severity body [] attrs ≡ some attrs
unfolding record_attributes ready with_level
record_attributes_none severity body attrs e = rw (e, record_attributes) refl

pub record_attributes-total :
    (severity body : Text) (extractors : List AttributeExtractor) (attrs : Attributes)
    → (attrs' : Attributes) × (record_attributes severity body extractors attrs ≡ some attrs')
record_attributes-total severity body (x ∷ xs) attrs =
    let (d, e) = made-some attrs in
    record_attributes-some severity body (x ∷ xs) attrs d (ready_extractors severity x xs attrs ∙ e)
record_attributes-total severity body [] attrs = elim (Bool-cases (severity == [])) [
  | inl no_level ↦ (attrs, record_attributes_none severity body attrs no_level)
  | inr level ↦
      let (d, e) = made-some attrs in
      record_attributes-some severity body [] attrs d (ready_level severity attrs level ∙ e)
]

-- preparedRecord never writes to a nil map, whatever the target and the attributes given: it
-- returns a record with the body given and the severity of that body, which is dropped exactly if
-- that severity is one of the target's dropped levels.
pub prepared_record-total :
    (target : FileTarget) (body : Text) (timestamp : Time) (attrs : Attributes)
    → (r : Record) × (prepared_record target body timestamp attrs ≡ some r)
      × (r.body ≡ body)
      × ((r.severity_text, r.severity_number) ≡ parse_severity body)
      × ((r.dropped ≡ true) ↔ Elem r.severity_text target.drop_levels)
unfolding prepared_record
prepared_record-total target body timestamp attrs =
    let (severity, number) = parse_severity body in
    let (attrs', e) = record_attributes-total severity body target.extractors attrs in
    (
      new_record target body timestamp severity number attrs',
      rw (e, prepared_record) refl,
      refl,
      refl,
      (any_sound severity target.drop_levels, any_complete severity target.drop_levels),
    )
