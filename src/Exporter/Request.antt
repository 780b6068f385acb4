-- ===== src/Exporter/Request.antt =====
-- internal/exporter/otlphttp.go: `BuildRequest`, `keyValues` and `attributeKey`. The protobuf types
-- are records with the fields that are set; `unix_nano` stands for `uint64(t.UnixNano())`.
pub mod Keys
pub mod Laws
use log_collector.Base.{
  ℕ, zero, suc, Bool, true, false, Option, none, some, List, [], ◌∷◌, ◌++◌, ◌==◌, text_eq, ltb,
  nat_eq, map, if◌then◌else◌,
}
use log_collector.Base.Dict.{Dict, lookup, insert}
use log_collector.Base.Text.{Text}
use log_collector.Model.{Record, Time}
use log_collector.Tailer.Records.{Attributes}

-- The order of strings, bytewise.
unfoldable pub text_leb : Text → Text → Bool
text_leb [] t = true
text_leb (c ∷ s) [] = false
text_leb (c ∷ s) (d ∷ t) = if c == d then text_leb s t else ltb c d

-- A map's entries in the order of `sort.Strings` of its keys.
unfoldable pub insert_sorted : Text × Text → Dict Text → Dict Text
unfolding text_leb
insert_sorted e [] = e ∷ []
insert_sorted e (f ∷ d) = if text_leb e.0 f.0 then e ∷ f ∷ d else f ∷ insert_sorted e d

-- `keyValues`, of a map that may be nil.
unfoldable pub key_values : Dict Text → Dict Text
unfolding insert_sorted
key_values [] = []
key_values (e ∷ d) = insert_sorted e (key_values d)

abbrev pub entries_of : Attributes → Dict Text
entries_of none = []
entries_of (some d) = d

-- Keys and values, each with a zero behind it.
unfoldable pub written : Dict Text → Text
written [] = []
written ((k, v) ∷ d) = k ++ 0 ∷ v ++ 0 ∷ written d

-- `attributeKey`
unfoldable pub attribute_key : Dict Text → Text
unfolding written key_values
attribute_key d = written (key_values d)

-- `LogRecord` and `ResourceLogs` of OTLP.
pub record LogRecord : Type 0 where
  pub time_unix_nano : ℕ
  pub observed_time_unix_nano : ℕ
  pub severity_text : Text
  pub severity_number : ℕ
  pub body : Text
  pub attributes : Dict Text
  pub trace_id : Text

pub record ResourceLogs : Type 0 where
  pub resource : Dict Text
  pub log_records : List LogRecord

-- `group`
pub record Group : Type 0 where
  pub attrs : Dict Text
  pub records : List LogRecord

module _ (unix_nano : Time → ℕ) where
  unfoldable pub log_record : Record → LogRecord
  log_record r = record {
    time_unix_nano = unix_nano r.timestamp;
    observed_time_unix_nano = unix_nano r.observed_timestamp;
    severity_text = r.severity_text;
    severity_number = r.severity_number;
    body = r.body;
    attributes = key_values (entries_of r.attributes);
    trace_id = r.trace_id;
  }

  unfoldable pub group_key : Record → Text
  group_key r = if r.resource_key == [] then attribute_key r.resource_attributes else r.resource_key

  unfoldable pub grow : Record → Option Group → Group
  grow r none = record { attrs = r.resource_attributes; records = log_record r ∷ [] }
  grow r (some g) = record g { records = g.records ++ log_record r ∷ [] }

  -- The loop over the records.
  unfoldable pub group_all : List Record → Dict Group → Dict Group
  unfolding grow group_key
  group_all [] groups = groups
  group_all (r ∷ rs) groups =
      let key = group_key r in group_all rs (insert key (grow r (lookup key groups)) groups)

  -- `BuildRequest`
  unfoldable pub build_request : List Record → List ResourceLogs
  unfolding group_all
  build_request rs =
      map (λ e. record { resource = key_values (e.1).attrs; log_records = (e.1).records })
        (group_all rs [])
