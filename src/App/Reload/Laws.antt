-- ===== src/App/Reload/Laws.antt =====
-- internal/app/app.go, `reloadConfig`: what runs after reloads is in line with the configuration that is
-- active, and the rest of the configuration stays.
use log_collector.Base.{
  some-injective, none-ne-some, ◌≡◌, refl, ap, sym, subst, ◌∙◌, ◌⊎◌, inl, inr, Bool, true, false,
  not, Option, none, some, List, [], ◌∷◌, ◌==◌, text_eq, if◌then◌else◌, Bool-cases, Option-cases,
  ==→≡,
}
use log_collector.Base.Text.{Text}
use log_collector.Config.{
  Config, LogConfig, StateConfig, SourcesConfig, ExportConfig, WebhookConfig, PerformanceConfig,
  FlowControlConfig,
}
use log_collector.Config.Defaults.{Loaded, loaded, unreadable, undecodable, invalid}
use log_collector.App.Reload.{
  DeepEqual, Running, applied, set_level, next_hook, next_level, apply_config, reload_config,
  reload_all,
}

-- What DeepEqual finds equal is equal.
pub record IsSound (eq : DeepEqual) : Type 0 where
  pub log : (a b : LogConfig) → eq.log a b ≡ true → a ≡ b
  pub state : (a b : StateConfig) → eq.state a b ≡ true → a ≡ b
  pub sources : (a b : SourcesConfig) → eq.sources a b ≡ true → a ≡ b
  pub export : (a b : ExportConfig) → eq.export a b ≡ true → a ≡ b
  pub webhook : (a b : WebhookConfig) → eq.webhook a b ≡ true → a ≡ b
  pub performance : (a b : PerformanceConfig) → eq.performance a b ≡ true → a ≡ b
  pub flow_control : (a b : FlowControlConfig) → eq.flow_control a b ≡ true → a ≡ b

abbrev with_level : Text → LogConfig → LogConfig
with_level level c = record c { level = level }

-- All settings but the webhook and the level of the logger are those of the first.
abbrev pub IsKept : Config → Config → Type 0
IsKept first c =
    (c.log ≡ with_level c.log.level first.log)
    × (c.state ≡ first.state)
    × (c.sources ≡ first.sources)
    × (c.export ≡ first.export)
    × (c.performance ≡ first.performance)
    × (c.flow_control ≡ first.flow_control)

applied-IsKept :
    (first active next : Config) → IsKept first active → IsKept first (applied active next)
unfolding applied
applied-IsKept first active next (l, s, o, x, p, f) =
    (ap (with_level next.log.level) l, s, o, x, p, f)

module _ {H L : Type 0} (eq : DeepEqual) (new_client : WebhookConfig → Option H)
    (parse_level : Text → Option L) where
  -- The client is the one for the active settings, and none where the webhook is off.
  abbrev pub IsHook : WebhookConfig → Option H → Type 0
  IsHook w hook =
      ((w.enabled ≡ true) × (h : H) × (hook ≡ some h) × (new_client w ≡ some h))
      ⊎ ((w.enabled ≡ false) × (hook ≡ none))

  -- The outputs and the level in line with the active configuration, which differs from the first one
  -- in no other setting.
  abbrev pub IsInSync : Config → Running H L → Type 0
  IsInSync first s =
      IsHook s.active.webhook s.hook
      × (parse_level s.active.log.level ≡ some s.level)
      × IsKept first s.active

  made-IsHook :
      (w : WebhookConfig) (enabled : Bool) (made h : Option H)
      → w.enabled ≡ enabled
      → new_client w ≡ made
      → (if enabled then elim made [ none ↦ none | some k ↦ some (some k) ] else some none) ≡ some h
      → IsHook w h
  made-IsHook w false made h f g e = inr (f, sym (some-injective _ _ e))
  made-IsHook w true none h f g e = absurd (none-ne-some _ e)
  made-IsHook w true (some k) h f g e = inl (f, k, sym (some-injective _ _ e), g)

  next_hook-IsHook :
      (active next : Config) (hook h : Option H)
      → IsSound eq
      → IsHook active.webhook hook
      → next_hook eq new_client parse_level active next ≡ some h
      → IsHook next.webhook (if not (eq.webhook active.webhook next.webhook) then h else hook)
  unfolding next_hook
  next_hook-IsHook active next hook h sound now e =
      elim (Bool-cases (eq.webhook active.webhook next.webhook)) [
        | inl same ↦ rw same (subst (λ w. IsHook w hook) (sound.webhook _ _ same) now)
        | inr other ↦ rw other (
            made-IsHook next.webhook next.webhook.enabled (new_client next.webhook) h refl refl
              (rw other at e))
      ]

  next_level_lem :
      (active next : Config) (s s' : Running H L)
      → parse_level active.log.level ≡ some s.level
      → next_level eq new_client parse_level active next s ≡ some s'
      → (parse_level next.log.level ≡ some s'.level) × (s'.hook ≡ s.hook) × (s'.active ≡ s.active)
  unfolding next_level set_level
  next_level_lem active next s s' now e = elim (Bool-cases (active.log.level == next.log.level)) [
    | inl same ↦
        let kept : s ≡ s' = some-injective _ _ (rw same at e) in
        (
          subst (λ v. parse_level v ≡ some s'.level) (==→≡ _ _ same)
              (now ∙ ap (λ r. some r.level) kept),
          ap (λ r. r.hook) (sym kept),
          ap (λ r. r.active) (sym kept),
        )
    | inr other ↦ elim (Option-cases (parse_level next.log.level)) [
      | inl bad ↦ absurd (none-ne-some _ (rw (other, bad, set_level) at e))
      | inr (level, good) ↦
          let set : record s { level = level } ≡ s' =
            some-injective _ _ (rw (other, good, set_level) at e) in
          (
            good ∙ ap (λ r. some r.level) set,
            ap (λ r. r.hook) (sym set),
            ap (λ r. r.active) (sym set),
          )
    ]
  ]

  apply_config-IsInSync :
      (first next : Config) (s : Running H L)
      → IsSound eq
      → IsInSync first s
      → IsInSync first (apply_config eq new_client parse_level next s).0
  unfolding apply_config applied
  apply_config-IsInSync first next s sound (hook, level, same) =
      let wanted = next_hook eq new_client parse_level s.active next in
      elim (Option-cases wanted) [
        | inl bad ↦ rw (bad, apply_config) (hook, level, same)
        | inr (h, e) ↦ elim (Option-cases (next_level eq new_client parse_level s.active next s)) [
          | inl bad ↦ rw (e, bad, apply_config) (hook, level, same)
          | inr (s', f) ↦
              let (level', _, _) = next_level_lem s.active next s s' level f in
              rw (e, f, apply_config)
                (
                  next_hook-IsHook s.active next s.hook h sound hook e,
                  level',
                  applied-IsKept first s.active next same,
                )
        ]
      ]

  reload_config-IsInSync :
      (first : Config) (r : Loaded) (s : Running H L)
      → IsSound eq
      → IsInSync first s
      → IsInSync first (reload_config eq new_client parse_level r s).0
  unfolding reload_config
  reload_config-IsInSync first unreadable s sound h = h
  reload_config-IsInSync first undecodable s sound h = h
  reload_config-IsInSync first (invalid e) s sound h = h
  reload_config-IsInSync first (loaded next) s sound h = apply_config-IsInSync first next s sound h

  -- After any sequence of reloads, whichever of them fail: the webhook client is the one made for
  -- the active settings, and none where they switch it off; the level of the logger is the active
  -- one; and all other settings of the active configuration are those of the first one. What
  -- DeepEqual finds equal is equal, and this holds at the start.
  pub reload_all-IsInSync :
      (first : Config) (rs : List Loaded) (s : Running H L)
      → IsSound eq
      → IsInSync first s
      → IsInSync first (reload_all eq new_client parse_level rs s)
  unfolding reload_all
  reload_all-IsInSync first [] s sound h = h
  reload_all-IsInSync first (r ∷ rs) s sound h =
      reload_all-IsInSync first rs (reload_config eq new_client parse_level r s).0 sound
        (reload_config-IsInSync first r s sound h)

  -- The webhook client, the level and the configuration of a reload that is applied.
  abbrev pub IsApplied : Config → Config → Running H L → Type 0
  IsApplied active next s =
      (s.active.webhook ≡ next.webhook)
      × (s.active.log.level ≡ next.log.level)
      × IsKept active s.active
      × IsHook next.webhook s.hook
      × (parse_level next.log.level ≡ some s.level)
