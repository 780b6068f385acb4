-- ===== src/Config/Validate.antt =====
-- internal/config/config.go: `Validate` and its helpers. `regexp.Compile` is a parameter. Which of
-- several bad expressions of one rule is reported depends on the order of a Go map; here it is the
-- order of the source.
use log_collector.Base.{
  Bool, true, false, not, any, ◌&&◌, ◌||◌, Option, none, some, List, [], ◌∷◌, ◌==◌, nat_eq, text_eq,
  leb, ltb, map, ◌-◌, ◌%◌, ◌^◌, if◌then◌else◌, ℕ,
}
use log_collector.Base.Checks.{◌>>◌, reject, check_all}
use log_collector.Base.Int.{ℤ, pos, leb_ℤ, ltb_ℤ}
use log_collector.Base.Text.{Text, bytes}
use log_collector.Model.{Regexp}
use log_collector.Utf8.{runes, encode}
use log_collector.Config.{
  Float64, Config, LogConfig, ExportConfig, WebhookConfig, PerformanceConfig, FlowControlConfig,
  ProcessRule, FileRule, AttributeExtractorConfig, TraceIdExtractorConfig,
}

-- The errors of `Validate`, without the names that their messages add.
pub data ConfigError : Type 0 where
  log_level log_format log_output log_rotation no_output state_path : ConfigError
  endpoint compression export_sizes queue_below_batch export_times : ConfigError
  webhook_url webhook_limits no_levels bad_level duplicate_level : ConfigError
  empty_keyword duplicate_keyword : ConfigError
  intervals limits worker_count flow_limits flow_mode : ConfigError
  process_rule file_rule start_at format bad_expression : ConfigError
  extractor_fields duplicate_extractor extractor_pattern extractor_group : ConfigError
  trace_id_pattern trace_id_group : ConfigError

abbrev pub is_nil {ℓ} : {A : Type ℓ} → List A → Bool
is_nil [] = true
is_nil (x ∷ xs) = false

-- `x <= 0`
-- `x <= 0` on a `float64`: a zero, or a sign on what is no NaN.
abbrev pub rate_at_most_zero : Float64 → Bool
rate_at_most_zero x =
    let magnitude = x.bits % 2 ^ 63 in
    leb magnitude 0x7ff0000000000000 && (magnitude == 0 || leb (2 ^ 63) x.bits)

abbrev pub at_most_zero : ℤ → Bool
at_most_zero x = leb_ℤ x (pos 0)

-- `unicode.IsSpace`
unfoldable pub is_space : ℕ → Bool
is_space c =
    (leb 9 c && leb c 13)
    || c == 0x20
    || c == 0x85
    || c == 0xa0
    || c == 0x1680
    || (leb 0x2000 c && leb c 0x200a)
    || c == 0x2028
    || c == 0x2029
    || c == 0x202f
    || c == 0x205f
    || c == 0x3000

-- `strings.TrimSpace(s) == ""`
unfoldable pub is_blank : Text → Bool
unfolding is_space
is_blank s = not (any (λ c. not (is_space c)) (runes s))

-- `strings.ToUpper`, up to letters that it maps beyond ASCII, which are in no name of a level: ı and ſ
-- are the two that it maps into ASCII from outside.
unfoldable pub upper_rune : ℕ → ℕ
upper_rune c =
    if leb b'a' c && leb c b'z'
    then c - 32
    else if c == 0x131
    then b'I'
    else if c == 0x17f
    then b'S'
    else c

unfoldable pub normalize : Text → Text
unfolding upper_rune
normalize s = encode (map upper_rune (runes s))

-- The loop of the three validators with a set of what they have seen: checks before and behind the
-- test for a duplicate.
unfoldable pub check_distinct {ℓ} :
    {A : Type ℓ}
    → (A → Option ConfigError)
    → (A → Text)
    → ConfigError
    → (A → Option ConfigError)
    → List Text
    → List A
    → Option ConfigError
check_distinct before key duplicate after seen [] = none
check_distinct before key duplicate after seen (x ∷ xs) =
    before x
    >> reject (any (λ k. k == key x) seen) duplicate
    >> after x
    >> check_distinct before key duplicate after (key x ∷ seen) xs

-- `validateKeywordList`
unfoldable pub validate_keyword_list : List Text → Option ConfigError
unfolding check_distinct
validate_keyword_list =
    check_distinct (λ k. reject (is_blank k) empty_keyword) (λ k. k) duplicate_keyword (λ k. none)
      []

unfoldable pub level_names : List Text
unfolding bytes
level_names =
    bytes "TRACE" ∷ bytes "DEBUG" ∷ bytes "INFO" ∷ bytes "WARN" ∷ bytes "ERROR" ∷ bytes "FATAL" ∷ []

-- `validateSeverityLevels` and `validateDropLevels`
unfoldable pub validate_severity_levels : List Text → Option ConfigError
unfolding check_distinct
validate_severity_levels =
    check_distinct (λ l. reject (not (any (λ n. n == normalize l) level_names)) bad_level) normalize
      duplicate_level (λ l. none) []

-- `validateStartAt`
unfoldable pub validate_start_at : Text → Option ConfigError
unfolding bytes
validate_start_at v =
    reject (not (v == []) && not (v == bytes "beginning") && not (v == bytes "end")) start_at

abbrev pub expressions : ProcessRule → List Text
expressions r =
    r.comm_regex ∷ r.cmdline_regex ∷ r.include_regex ∷ r.exclude_regex ∷ r.multiline.start_pattern
    ∷ []

module _ (compile : Text → Option Regexp) where
  -- A pattern that must compile and have a capture group.
  unfoldable pub check_pattern : ConfigError → ConfigError → Text → Option ConfigError
  check_pattern invalid no_group pattern = elim (compile pattern) [
    | none ↦ some invalid
    | some compiled ↦ reject (ltb compiled.num_subexp 1) no_group
  ]

  -- `validateAttributeExtractors`
  unfoldable pub validate_attribute_extractors : List AttributeExtractorConfig → Option ConfigError
  unfolding check_distinct check_pattern
  validate_attribute_extractors =
      check_distinct (λ x. reject (x.key == [] || x.pattern == []) extractor_fields) (λ x. x.key)
        duplicate_extractor (λ x. check_pattern extractor_pattern extractor_group x.pattern) []

  -- `validateTraceIDExtractor`
  unfoldable pub validate_trace_id_extractor : TraceIdExtractorConfig → Option ConfigError
  unfolding check_pattern
  validate_trace_id_extractor x =
      if x.pattern == [] then none else check_pattern trace_id_pattern trace_id_group x.pattern

  -- The loop over expressions that may be empty.
  unfoldable pub check_expression : Text → Option ConfigError
  check_expression expression =
      if expression == []
      then none
      else elim (compile expression) [ none ↦ some bad_expression | some compiled ↦ none ]

  unfoldable pub validate_process_rule : ProcessRule → Option ConfigError
  unfolding check_expression
  validate_process_rule r =
      reject
        (r.name == [] || (r.comm_regex == [] && r.cmdline_regex == []) || r.include_regex == [])
        process_rule
      >> validate_start_at r.start_at
      >> check_all check_expression (expressions r)
      >> validate_attribute_extractors r.extractors
      >> validate_trace_id_extractor r.trace_id
      >> validate_severity_levels r.drop_levels

  unfoldable pub validate_file_rule : FileRule → Option ConfigError
  unfolding check_expression bytes
  validate_file_rule r =
      reject (r.name == [] || is_nil r.includes) file_rule
      >> validate_start_at r.start_at
      >> reject (not (r.format == []) && not (r.format == bytes "cri")) format
      >> check_expression r.multiline.start_pattern
      >> validate_attribute_extractors r.extractors
      >> validate_trace_id_extractor r.trace_id
      >> validate_severity_levels r.drop_levels

-- The checks of `Validate` on each section.
unfoldable pub validate_log : LogConfig → Option ConfigError
unfolding bytes
validate_log c =
    reject
      (not (c.level == bytes "debug")
        && not (c.level == bytes "info")
        && not (c.level == bytes "warn")
        && not (c.level == bytes "error"))
      log_level
    >> reject (not (c.format == bytes "json") && not (c.format == bytes "console")) log_format
    >> reject (c.file == [] && not c.also_stdout) log_output
    >> reject
        (at_most_zero c.max_size_mb || ltb_ℤ c.max_backups (pos 0) || ltb_ℤ c.max_age_days (pos 0))
        log_rotation

unfoldable pub validate_export : ExportConfig → Option ConfigError
unfolding bytes
validate_export c =
    reject (c.endpoint == []) endpoint
    >> reject (not (c.compression == []) && not (c.compression == bytes "gzip")) compression
    >> reject
        (at_most_zero c.batch_size
          || at_most_zero c.queue_size
          || at_most_zero c.max_batch_bytes
          || at_most_zero c.max_queue_bytes)
        export_sizes
    >> reject (ltb_ℤ c.max_queue_bytes c.max_batch_bytes) queue_below_batch
    >> reject (at_most_zero c.flush_interval || at_most_zero c.timeout) export_times

unfoldable pub validate_webhook : WebhookConfig → Option ConfigError
validate_webhook c =
    reject (c.url == []) webhook_url
    >> reject (at_most_zero c.timeout || at_most_zero c.max_content_length) webhook_limits
    >> reject (is_nil c.severity_levels) no_levels
    >> validate_severity_levels c.severity_levels
    >> validate_keyword_list c.ignore_keywords
    >> validate_keyword_list c.error_type_keywords

unfoldable pub validate_performance : PerformanceConfig → Option ConfigError
validate_performance c =
    reject
      (at_most_zero c.discovery_interval
        || at_most_zero c.read_interval
        || at_most_zero c.position_flush_interval)
      intervals
    >> reject
        (at_most_zero c.worker_count
          || at_most_zero c.max_read_bytes_per_file
          || at_most_zero c.max_log_size
          || at_most_zero c.max_multiline_size
          || at_most_zero c.max_multiline_lines
          || at_most_zero c.cache_ttl)
        limits
    >> reject (ltb_ℤ (pos 1024) c.worker_count) worker_count

unfoldable pub validate_flow_control : FlowControlConfig → Option ConfigError
unfolding bytes
validate_flow_control c =
    reject
      (rate_at_most_zero c.rate_per_second
        || at_most_zero c.burst
        || at_most_zero c.report_interval)
      flow_limits
    >> reject (not (c.mode == bytes "block") && not (c.mode == bytes "drop")) flow_mode

-- `Validate`; none is nil.
unfoldable pub validate : (Text → Option Regexp) → Config → Option ConfigError
validate compile c =
    validate_log c.log
    >> reject (not c.export.enabled && not c.webhook.enabled) no_output
    >> reject (c.state.path == []) state_path
    >> (if c.export.enabled then validate_export c.export else none)
    >> (if c.webhook.enabled then validate_webhook c.webhook else none)
    >> validate_performance c.performance
    >> (if c.flow_control.enabled then validate_flow_control c.flow_control else none)
    >> check_all (validate_process_rule compile) c.sources.processes
    >> check_all (validate_file_rule compile) c.sources.files
    >> check_all (validate_file_rule compile) c.sources.containers
