-- ===== src/App/Reload.antt =====
-- internal/app/app.go: `reloadConfig` of `Run`, and `restartRequiredChanges`, with `SetLevel` of
-- internal/logging/logging.go. `reflect.DeepEqual` on each section, `webhook.New` and the parser of
-- level names are parameters; the messages to the log are left out but for the list of sections.
pub mod Laws
pub mod Tests
use log_collector.Base.{
  Bool, true, false, not, ◌&&◌, Option, none, some, List, [], ◌∷◌, ◌==◌, text_eq, if◌then◌else◌,
}
use log_collector.Base.Text.{Text, bytes}
use log_collector.Config.{
  Config, LogConfig, StateConfig, SourcesConfig, ExportConfig, WebhookConfig, PerformanceConfig,
  FlowControlConfig,
}
use log_collector.Config.Defaults.{Loaded, loaded}

-- `reflect.DeepEqual` on the sections of the configuration.
pub record DeepEqual : Type 0 where
  pub log : LogConfig → LogConfig → Bool
  pub state : StateConfig → StateConfig → Bool
  pub sources : SourcesConfig → SourcesConfig → Bool
  pub export : ExportConfig → ExportConfig → Bool
  pub webhook : WebhookConfig → WebhookConfig → Bool
  pub performance : PerformanceConfig → PerformanceConfig → Bool
  pub flow_control : FlowControlConfig → FlowControlConfig → Bool

abbrev pub without_level : LogConfig → LogConfig
without_level c = record c { level = [] }

-- The names of the sections that differ.
unfoldable pub changed : List (Text × Bool) → List Text
changed [] = []
changed ((name, equal) ∷ sections) =
    let rest = changed sections in if equal then rest else name ∷ rest

-- The sections that only a restart applies, and whether they are equal.
abbrev pub sections : DeepEqual → Config → Config → List (Text × Bool)
sections eq active next =
    (bytes "log except level", eq.log (without_level active.log) (without_level next.log))
    ∷ (bytes "state", eq.state active.state next.state)
    ∷ (bytes "sources", eq.sources active.sources next.sources)
    ∷ (bytes "export", eq.export active.export next.export)
    ∷ (bytes "performance", eq.performance active.performance next.performance)
    ∷ (bytes "flow_control", eq.flow_control active.flow_control next.flow_control)
    ∷ []

-- `restartRequiredChanges`
unfoldable pub restart_required_changes : DeepEqual → Config → Config → List Text
unfolding changed
restart_required_changes eq active next = changed (sections eq active next)

-- What a reload changes: `activeCfg`, `hookRef` and the level of the logger.
pub record Running (H L : Type 0) : Type 0 where
  pub active : Config
  pub hook : Option H
  pub level : L

-- The configuration with the two settings that a reload applies.
unfoldable pub applied : Config → Config → Config
applied active next = record active {
  webhook = next.webhook;
  log = record active.log { level = next.log.level };
}

module _ {H L : Type 0} (eq : DeepEqual) (new_client : WebhookConfig → Option H)
    (parse_level : Text → Option L) where
  -- `SetLevel`
  unfoldable pub set_level : Text → Running H L → Option (Running H L)
  set_level value s = elim (parse_level value) [
    | none ↦ none
    | some level ↦ some (record s { level = level })
  ]

  -- `nextHook`; none is an error.
  unfoldable pub next_hook : Config → Config → Option (Option H)
  next_hook active next =
      if not (eq.webhook active.webhook next.webhook) && next.webhook.enabled
      then elim (new_client next.webhook) [ none ↦ none | some h ↦ some (some h) ]
      else some none

  unfoldable pub next_level : Config → Config → Running H L → Option (Running H L)
  unfolding set_level
  next_level active next s =
      if not (active.log.level == next.log.level) then set_level next.log.level s else some s

  -- A configuration that could be loaded; the list is that of the sections that need a restart.
  unfoldable pub apply_config : Config → Running H L → Running H L × List Text
  unfolding next_hook next_level restart_required_changes applied
  apply_config next s = elim (next_hook s.active next) [
    | none ↦ (s, [])
    | some h ↦ elim (next_level s.active next s) [
      | none ↦ (s, [])
      | some s' ↦ (
        record s' {
          hook = if not (eq.webhook s.active.webhook next.webhook) then h else s.hook;
          active = applied s.active next;
        },
        restart_required_changes eq s.active next,
      )
    ]
  ]

  -- `reloadConfig`
  unfoldable pub reload_config : Loaded → Running H L → Running H L × List Text
  unfolding apply_config
  reload_config (loaded next) s = apply_config next s
  reload_config _ s = (s, [])

  -- Several reloads.
  unfoldable pub reload_all : List Loaded → Running H L → Running H L
  unfolding reload_config
  reload_all [] s = s
  reload_all (r ∷ rs) s = reload_all rs (reload_config r s).0
