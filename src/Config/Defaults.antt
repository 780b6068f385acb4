-- ===== src/Config/Defaults.antt =====
-- internal/config/config.go: `defaults` and `Load`. The file system and the YAML decoder, which writes
-- into a configuration, are parameters.
use log_collector.Base.{
  ℕ, ◌↔◌, ◌≡◌, ◌≢◌, refl, subst, sym, ap, ◌∙◌, inl, inr, true, false, Option, none, some, [], ◌∷◌,
  text_eq, ◌*◌, arith,
}
use mathlib.Core.Option.{some-injective}
use log_collector.Base.Int.{pos}
use log_collector.Base.Text.{Text, bytes}
use log_collector.Model.{Regexp}
use log_collector.Config.{Config}
use log_collector.Config.Validate.{ConfigError, validate}
use log_collector.Config.Valid.{IsValid}
use log_collector.Config.Valid.Sections.{validate_iff}

-- `time.Second`
abbrev pub second : ℕ
second = 1_000_000_000

-- `defaults`
unfoldable pub defaults : Config
unfolding bytes
defaults = record {
  log = record {
    level = bytes "info";
    format = bytes "json";
    file = bytes "./logs/log-collector.log";
    also_stdout = true;
    max_size_mb = pos 100;
    max_backups = pos 10;
    max_age_days = pos 7;
    compress = true;
  };
  state = record { path = bytes "./data/positions.json" };
  sources = record { processes = []; files = []; containers = [] };
  performance = record {
    discovery_interval = pos (5 * second);
    read_interval = pos second;
    position_flush_interval = pos (15 * second);
    worker_count = pos 4;
    max_read_bytes_per_file = pos (4 * 1024 * 1024);
    max_log_size = pos (1024 * 1024);
    max_multiline_size = pos (4 * 1024 * 1024);
    max_multiline_lines = pos 1000;
    cache_ttl = pos (24 * 60 * 60 * second);
  };
  flow_control = record {
    enabled = false;
    rate_per_second = record { bits = 0x408f400000000000 };
    burst = pos 2000;
    mode = bytes "block";
    report_interval = pos (10 * second);
  };
  export = record {
    enabled = true;
    endpoint = [];
    headers = [];
    compression = [];
    timeout = pos (10 * second);
    batch_size = pos 500;
    max_batch_bytes = pos (4 * 1024 * 1024);
    flush_interval = pos second;
    queue_size = pos 10000;
    max_queue_bytes = pos (64 * 1024 * 1024);
    retry = record {
      enabled = true;
      initial = pos second;
      max_interval = pos (30 * second);
      max_elapsed = pos (5 * 60 * second);
    };
  };
  webhook = record {
    enabled = false;
    url = [];
    title = bytes "日志异常告警";
    environment = [];
    severity_levels = bytes "ERROR" ∷ bytes "FATAL" ∷ [];
    ignore_keywords = [];
    error_type_keywords = [];
    timeout = pos (5 * second);
    max_content_length = pos 4000;
  };
}

-- The results of `Load`.
pub data Loaded : Type 0 where
  unreadable undecodable : Loaded
  invalid : ConfigError → Loaded
  loaded : Config → Loaded

module _ (compile : Text → Option Regexp) where
  unfoldable pub validated : Config → Loaded
  validated c = elim (validate compile c) [ none ↦ loaded c | some e ↦ invalid e ]

  unfoldable pub decoded : Option Config → Loaded
  decoded none = undecodable
  decoded (some c) = validated c

  -- `Load`
  unfoldable pub load_config :
      (Text → Option Text) → (Text → Config → Option Config) → Text → Loaded
  unfolding validated decoded
  load_config read_file decode path = elim (read_file path) [
    | none ↦ unreadable
    | some b ↦ decoded (decode b defaults)
  ]

-- The defaults with an endpoint.
abbrev pub with_endpoint : Text → Config
with_endpoint e = record defaults { export = record defaults.export { endpoint = e } }

endpoint-IsValid :
    (compile : Text → Option Regexp) (e : Text) → e ≢ [] → IsValid compile (with_endpoint e)
unfolding defaults
endpoint-IsValid compile e h = (
  (inr (inl refl), (inl refl, (inr refl, (omega arith)))),
  (
    inl refl,
    (
      ground arith,
      (
        inr (h, (inl refl, (omega arith, (omega arith, omega arith)))),
        (inl refl, ((omega arith, (omega arith, omega arith)), (inl refl, (tt, (tt, tt))))),
      ),
    ),
  ),
)

-- The defaults with an endpoint pass Validate exactly if that endpoint is not empty, so the
-- endpoint is the one setting that must be given.
pub defaults_iff :
    (compile : Text → Option Regexp) (e : Text)
    → (validate compile (with_endpoint e) ≡ none) ↔ (e ≢ [])
unfolding defaults
defaults_iff compile e =
    let (to, from) = validate_iff compile (with_endpoint e) in
    (
      (λ h. elim ((to h).1).1.1.0 [ inl off ↦ cc | inr x ↦ x.0 ]),
      (λ h. from (endpoint-IsValid compile e h)),
    )

validated_loaded :
    (c d : Config) (o : Option ConfigError)
    → elim o [ none ↦ loaded c | some e ↦ invalid e ] ≡ loaded d
    → (o ≡ none) × (c ≡ d)
validated_loaded c d none e = (refl, loaded-injective e)
  where
    loaded-injective : {c d : Config} → loaded c ≡ loaded d → c ≡ d
    loaded-injective e = cc
validated_loaded c d (some x) e = cc

module _ (compile : Text → Option Regexp) (c : Config) where
  validated_iff : (d : Config) → (validated compile d ≡ loaded c) ↔ ((d ≡ c) × IsValid compile c)
  unfolding validated
  validated_iff d = (
    (λ e.
        let (fine, same) = validated_loaded d c (validate compile d) e in
        (same, subst (IsValid compile) same ((validate_iff compile d).0 fine))),
    (λ (same, v).
        rw ((validate_iff compile d).1 (subst (IsValid compile) (sym same) v), validated)
          (ap loaded same)),
  )

  decoded_iff :
      (o : Option Config) → (decoded compile o ≡ loaded c) ↔ ((o ≡ some c) × IsValid compile c)
  unfolding decoded
  decoded_iff none = ((λ e. cc), (λ (e, v). cc))
  decoded_iff (some d) =
      let (to, from) = validated_iff d in
      (
        (λ e. let (same, v) = to e in (ap some same, v)),
        (λ (same, v). from (some-injective d c same, v)),
      )

  read_iff :
      (decode : Text → Config → Option Config) (o : Option Text)
      → (elim o [ none ↦ unreadable | some b ↦ decoded compile (decode b defaults) ] ≡ loaded c)
        ↔ ((b : Text) × (o ≡ some b) × (decode b defaults ≡ some c) × IsValid compile c)
  read_iff decode none = ((λ e. cc), (λ (b, e, f, v). cc))
  read_iff decode (some b) =
      let (to, from) = decoded_iff (decode b defaults) in
      (
        (λ e. let (f, v) = to e in (b, refl, f, v)),
        (λ (b', e, f, v). from (ap (λ t. decode t defaults) (some-injective b b' e) ∙ f, v)),
      )

-- Load returns a configuration exactly if the file can be read, decoding its content over the
-- defaults gives that configuration, and the configuration is valid.
pub load_config_iff :
    (compile : Text → Option Regexp) (read_file : Text → Option Text)
    (decode : Text → Config → Option Config) (path : Text) (c : Config)
    → (load_config compile read_file decode path ≡ loaded c)
      ↔ ((b : Text) × (read_file path ≡ some b) × (decode b defaults ≡ some c) × IsValid compile c)
unfolding load_config
load_config_iff compile read_file decode path c = read_iff compile c decode (read_file path)
