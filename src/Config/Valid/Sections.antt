-- ===== src/Config/Valid/Sections.antt =====
-- internal/config/config.go: the checks of each section, and `Validate`.
use log_collector.Base.{
  ◌≡◌, ◌≢◌, ◌↔◌, refl, ◌⊎◌, inl, inr, Bool, true, false, not, ◌||◌, ◌&&◌, Option, none, List, [],
  ◌∷◌, ◌==◌, text_eq, arith, if◌then◌else◌, ◌<◌, length,
}
use log_collector.Base.Checks.{reject, both, each}
use log_collector.Base.Int.{ℤ}
use log_collector.Base.Text.{Text, bytes}
use log_collector.Model.{Regexp}
use log_collector.Config.{
  Config, LogConfig, ExportConfig, WebhookConfig, PerformanceConfig, FlowControlConfig, ProcessRule,
  FileRule,
}
use log_collector.Config.Validate.{
  ConfigError, webhook_url, webhook_limits, no_levels, process_rule, file_rule, format, no_output,
  state_path, check_expression, is_nil, at_most_zero, expressions, validate_start_at,
  validate_process_rule, validate_file_rule, validate_log, validate_export, validate_webhook,
  validate_performance, validate_flow_control, validate,
}
use log_collector.Config.Valid.{
  IsPositive, IsStartAt, IsProcessRule, IsFileRule, IsLog, IsExport, IsWebhook, IsPerformance,
  IsFlowControl, Unless, IsValid,
}
use log_collector.Config.Valid.Lists.{
  rejects, validate_keyword_list_iff, validate_severity_levels_iff, check_expression_iff,
  validate_trace_id_extractor_iff, validate_attribute_extractors_iff,
}

at_most_zero_iff : (x : ℤ) → (at_most_zero x ≡ false) ↔ IsPositive x
at_most_zero_iff x = ((λ e. ground arith), (λ h. ground arith))

is_nil_iff {ℓ} : {A : Type ℓ} (xs : List A) → (is_nil xs ≡ false) ↔ (0 < length xs)
is_nil_iff [] = ((λ e. cc), (λ h. absurd (omega (arith, h))))
is_nil_iff (x ∷ xs) = ((λ e. omega arith), (λ h. refl))

validate_log_iff : (c : LogConfig) → (validate_log c ≡ none) ↔ IsLog c
unfolding validate_log
validate_log_iff c = ((λ e. ground arith), (λ h. ground arith))

validate_export_iff : (c : ExportConfig) → (validate_export c ≡ none) ↔ IsExport c
unfolding validate_export
validate_export_iff c = ((λ e. ground arith), (λ h. ground arith))

validate_performance_iff :
    (c : PerformanceConfig) → (validate_performance c ≡ none) ↔ IsPerformance c
unfolding validate_performance
validate_performance_iff c = ((λ e. ground arith), (λ h. ground arith))

validate_flow_control_iff :
    (c : FlowControlConfig) → (validate_flow_control c ≡ none) ↔ IsFlowControl c
unfolding validate_flow_control
validate_flow_control_iff c = ((λ e. ground arith), (λ h. ground arith))

validate_start_at_iff : (v : Text) → (validate_start_at v ≡ none) ↔ IsStartAt v
unfolding validate_start_at
validate_start_at_iff v = ((λ e. ground arith), (λ h. ground arith))

pub validate_webhook_iff : (c : WebhookConfig) → (validate_webhook c ≡ none) ↔ IsWebhook c
unfolding validate_webhook
validate_webhook_iff c =
    let url : (reject (c.url == []) webhook_url ≡ none) ↔ (c.url ≢ []) =
      ((λ e. ground arith), (λ h. ground arith)) in
    let sizes : (reject (at_most_zero c.timeout || at_most_zero c.max_content_length) webhook_limits
          ≡ none)
        ↔ (IsPositive c.timeout × IsPositive c.max_content_length) =
      ((λ e. ground arith), (λ h. ground arith)) in
    both url (
      both sizes (
        both
          (rejects (is_nil c.severity_levels) no_levels (is_nil_iff c.severity_levels).0
            (is_nil_iff c.severity_levels).1)
          (both (validate_severity_levels_iff c.severity_levels) (
            both (validate_keyword_list_iff c.ignore_keywords)
              (validate_keyword_list_iff c.error_type_keywords)))))

module _ (compile : Text → Option Regexp) where
  validate_process_rule_iff :
      (r : ProcessRule) → (validate_process_rule compile r ≡ none) ↔ IsProcessRule compile r
  unfolding validate_process_rule
  validate_process_rule_iff r =
      let names : (reject
              (r.name == []
                || (r.comm_regex == [] && r.cmdline_regex == [])
                || r.include_regex == [])
              process_rule
            ≡ none)
          ↔ ((r.name ≢ [])
              × ((r.comm_regex ≢ []) ⊎ (r.cmdline_regex ≢ []))
              × (r.include_regex ≢ [])) =
        ((λ e. ground arith), (λ h. ground arith)) in
      both names (
        both (validate_start_at_iff r.start_at) (
          both (each (check_expression compile) (expressions r) (check_expression_iff compile)) (
            both (validate_attribute_extractors_iff compile r.extractors) (
              both (validate_trace_id_extractor_iff compile r.trace_id)
                (validate_severity_levels_iff r.drop_levels)))))

  validate_file_rule_iff :
      (r : FileRule) → (validate_file_rule compile r ≡ none) ↔ IsFileRule compile r
  unfolding validate_file_rule
  validate_file_rule_iff r =
      let (some_include, back) = is_nil_iff r.includes in
      let names : (reject (r.name == [] || is_nil r.includes) file_rule ≡ none)
          ↔ ((r.name ≢ []) × (0 < length r.includes)) =
        rejects (r.name == [] || is_nil r.includes) file_rule
          (λ e. (ground (arith, e), some_include (ground (arith, e))))
          (λ (n, i). ground (arith, n, back i)) in
      let formats : (reject (not (r.format == []) && not (r.format == bytes "cri")) format ≡ none)
          ↔ ((r.format ≡ []) ⊎ (r.format ≡ bytes "cri")) =
        ((λ e. ground arith), (λ h. ground arith)) in
      both names (
        both (validate_start_at_iff r.start_at) (
          both formats (
            both (check_expression_iff compile r.multiline.start_pattern) (
              both (validate_attribute_extractors_iff compile r.extractors) (
                both (validate_trace_id_extractor_iff compile r.trace_id)
                  (validate_severity_levels_iff r.drop_levels))))))

  -- A section that is looked at only where it is switched on.
  switched {ℓ} :
      {P : Type ℓ} (enabled : Bool) (check : Option ConfigError)
      → (check ≡ none) ↔ P
      → ((if enabled then check else none) ≡ none) ↔ Unless enabled P
  switched true check (to, from) =
      ((λ e. inr (to e)), (λ h. elim h [ inl f ↦ cc | inr p ↦ from p ]))
  switched false check f = ((λ e. inl refl), (λ h. refl))

  -- Validate accepts a configuration exactly if it is valid: each part has its settings in range,
  -- at least one output is enabled, every pattern compiles, those that extract have a capture
  -- group, and no list of levels, keywords or attribute keys names one twice. The regular
  -- expression compiler is any function.
  pub validate_iff : (c : Config) → (validate compile c ≡ none) ↔ IsValid compile c
  unfolding validate
  validate_iff c =
      let outputs : (reject (not c.export.enabled && not c.webhook.enabled) no_output ≡ none)
          ↔ ((c.export.enabled ≡ true) ⊎ (c.webhook.enabled ≡ true)) =
        ((λ e. ground arith), (λ h. ground arith)) in
      let paths : (reject (c.state.path == []) state_path ≡ none) ↔ (c.state.path ≢ []) =
        ((λ e. ground arith), (λ h. ground arith)) in
      both (validate_log_iff c.log) (
        both outputs (
          both paths (
            both
              (switched c.export.enabled (validate_export c.export) (validate_export_iff c.export))
              (both
                (switched c.webhook.enabled (validate_webhook c.webhook)
                  (validate_webhook_iff c.webhook))
                (both (validate_performance_iff c.performance) (
                  both
                    (switched c.flow_control.enabled (validate_flow_control c.flow_control)
                      (validate_flow_control_iff c.flow_control))
                    (both
                      (each (validate_process_rule compile) c.sources.processes
                        validate_process_rule_iff)
                      (both
                        (each (validate_file_rule compile) c.sources.files validate_file_rule_iff)
                        (each (validate_file_rule compile) c.sources.containers
                          validate_file_rule_iff)))))))))
