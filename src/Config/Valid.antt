-- ===== src/Config/Valid.antt =====
-- internal/config/config.go, `Validate`: the configurations that it accepts, described without it.
pub mod Lists
pub mod Sections
use log_collector.Base.{
  ◌≡◌, ◌≢◌, ◌⊎◌, ◌≤◌, Bool, true, false, List, [], ◌∷◌, Option, some, map, All, Elem, length, ◌<◌,
  ◌^◌, ◌%◌, ℕ,
}
use log_collector.Base.Checks.{◌and◌}
use log_collector.Base.Int.{ℤ, pos, ◌≤ℤ◌, ◌<ℤ◌}
use log_collector.Base.Text.{Text, bytes}
use log_collector.Model.{Regexp}
use log_collector.Config.{
  Float64, Config, LogConfig, ExportConfig, WebhookConfig, PerformanceConfig, FlowControlConfig,
  ProcessRule, FileRule, AttributeExtractorConfig, TraceIdExtractorConfig,
}
use log_collector.Config.Validate.{normalize, level_names, is_blank}

abbrev pub IsPositive : ℤ → Type 0
IsPositive x = pos 0 <ℤ x

-- A rate above zero, or NaN, which no comparison rejects.
abbrev pub IsPositiveRate : Float64 → Type 0
IsPositiveRate x = ((0 < x.bits) × (x.bits < 2 ^ 63)) ⊎ (0x7ff0000000000000 < x.bits % 2 ^ 63)

-- No key is among those before it or among those seen.
abbrev pub AreDistinct : List Text → List Text → Type 0
AreDistinct seen [] = Unit
AreDistinct seen (k ∷ ks) = (¬ Elem k seen) × AreDistinct (k ∷ seen) ks

-- Names of levels in any letter case, none of them twice.
abbrev pub AreLevels : List Text → Type 0
AreLevels ls = All (λ l. Elem (normalize l) level_names) ls × AreDistinct [] (map normalize ls)

abbrev pub AreKeywords : List Text → Type 0
AreKeywords ks = All (λ k. is_blank k ≡ false) ks × AreDistinct [] (map (λ k. k) ks)

abbrev pub IsStartAt : Text → Type 0
IsStartAt v = (v ≡ []) ⊎ (v ≡ bytes "beginning") ⊎ (v ≡ bytes "end")

module _ (compile : Text → Option Regexp) where
  abbrev pub Compiles : Text → Type 0
  Compiles p = (r : Regexp) × (compile p ≡ some r)

  abbrev pub HasGroup : Text → Type 0
  HasGroup p = (r : Regexp) × (compile p ≡ some r) × (0 < r.num_subexp)

  abbrev pub AreExtractors : List AttributeExtractorConfig → Type 0
  AreExtractors xs =
      All (λ x. (x.key ≢ []) × (x.pattern ≢ []) × HasGroup x.pattern) xs
      × AreDistinct [] (map (λ x. x.key) xs)

  abbrev pub IsTraceId : TraceIdExtractorConfig → Type 0
  IsTraceId x = (x.pattern ≡ []) ⊎ HasGroup x.pattern

  -- What both kinds of rules share.
  abbrev pub IsExpression : Text → Type 0
  IsExpression p = (p ≡ []) ⊎ Compiles p

  abbrev pub IsProcessRule : ProcessRule → Type 0
  IsProcessRule r =
      ((r.name ≢ []) × ((r.comm_regex ≢ []) ⊎ (r.cmdline_regex ≢ [])) × (r.include_regex ≢ []))
      and IsStartAt r.start_at
      and All IsExpression (
          r.comm_regex ∷ r.cmdline_regex ∷ r.include_regex ∷ r.exclude_regex
          ∷ r.multiline.start_pattern ∷ [])
      and AreExtractors r.extractors
      and IsTraceId r.trace_id
      and AreLevels r.drop_levels

  abbrev pub IsFileRule : FileRule → Type 0
  IsFileRule r =
      ((r.name ≢ []) × (0 < length r.includes))
      and IsStartAt r.start_at
      and ((r.format ≡ []) ⊎ (r.format ≡ bytes "cri"))
      and IsExpression r.multiline.start_pattern
      and AreExtractors r.extractors
      and IsTraceId r.trace_id
      and AreLevels r.drop_levels

abbrev pub IsLog : LogConfig → Type 0
IsLog c =
    ((c.level ≡ bytes "debug")
      ⊎ (c.level ≡ bytes "info")
      ⊎ (c.level ≡ bytes "warn")
      ⊎ (c.level ≡ bytes "error"))
    and ((c.format ≡ bytes "json") ⊎ (c.format ≡ bytes "console"))
    and ((c.file ≢ []) ⊎ (c.also_stdout ≡ true))
    and (IsPositive c.max_size_mb × (pos 0 ≤ℤ c.max_backups) × (pos 0 ≤ℤ c.max_age_days))

abbrev pub IsExport : ExportConfig → Type 0
IsExport c =
    (c.endpoint ≢ [])
    and ((c.compression ≡ []) ⊎ (c.compression ≡ bytes "gzip"))
    and (IsPositive c.batch_size
        × IsPositive c.queue_size
        × IsPositive c.max_batch_bytes
        × IsPositive c.max_queue_bytes)
    and (c.max_batch_bytes ≤ℤ c.max_queue_bytes)
    and (IsPositive c.flush_interval × IsPositive c.timeout)

abbrev pub IsWebhook : WebhookConfig → Type 0
IsWebhook c =
    (c.url ≢ [])
    and (IsPositive c.timeout × IsPositive c.max_content_length)
    and (0 < length c.severity_levels)
    and AreLevels c.severity_levels
    and AreKeywords c.ignore_keywords
    and AreKeywords c.error_type_keywords

abbrev pub IsPerformance : PerformanceConfig → Type 0
IsPerformance c =
    (IsPositive c.discovery_interval
      × IsPositive c.read_interval
      × IsPositive c.position_flush_interval)
    and (IsPositive c.worker_count
        × IsPositive c.max_read_bytes_per_file
        × IsPositive c.max_log_size
        × IsPositive c.max_multiline_size
        × IsPositive c.max_multiline_lines
        × IsPositive c.cache_ttl)
    and (c.worker_count ≤ℤ pos 1024)

abbrev pub IsFlowControl : FlowControlConfig → Type 0
IsFlowControl c =
    (IsPositiveRate c.rate_per_second × IsPositive c.burst × IsPositive c.report_interval)
    and ((c.mode ≡ bytes "block") ⊎ (c.mode ≡ bytes "drop"))

-- The sections that are switched off are not looked at.
abbrev pub Unless {ℓ} : Bool → Type ℓ → Type ℓ
Unless enabled P = (enabled ≡ false) ⊎ P

abbrev pub IsValid : (Text → Option Regexp) → Config → Type 0
IsValid compile c =
    IsLog c.log
    and ((c.export.enabled ≡ true) ⊎ (c.webhook.enabled ≡ true))
    and (c.state.path ≢ [])
    and Unless c.export.enabled (IsExport c.export)
    and Unless c.webhook.enabled (IsWebhook c.webhook)
    and IsPerformance c.performance
    and Unless c.flow_control.enabled (IsFlowControl c.flow_control)
    and All (IsProcessRule compile) c.sources.processes
    and All (IsFileRule compile) c.sources.files
    and All (IsFileRule compile) c.sources.containers
