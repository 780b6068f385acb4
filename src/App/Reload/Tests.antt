-- ===== src/App/Reload/Tests.antt =====
-- The reload's theorems at concrete inputs: a reload that switches the webhook on, and one that fails.
use log_collector.Base.{refl, inr, true, false, Option, none, some, [], ◌∷◌}
use log_collector.Base.Text.{Text}
use log_collector.Config.{Config, WebhookConfig}
use log_collector.Config.Defaults.{defaults, with_endpoint, loaded, unreadable}
use log_collector.App.Reload.{DeepEqual, Running, reload_all}
use log_collector.App.Reload.Laws.{IsSound, IsInSync, reload_all-IsInSync}

-- Like on a NaN, nothing is found equal.
abbrev never_equal : DeepEqual
never_equal = record {
  log = λ a b. false;
  state = λ a b. false;
  sources = λ a b. false;
  export = λ a b. false;
  webhook = λ a b. false;
  performance = λ a b. false;
  flow_control = λ a b. false;
}

never_equal-IsSound : IsSound never_equal
never_equal-IsSound = record {
  log = λ a b e. cc;
  state = λ a b e. cc;
  sources = λ a b e. cc;
  export = λ a b e. cc;
  webhook = λ a b e. cc;
  performance = λ a b e. cc;
  flow_control = λ a b e. cc;
}

-- A client is its address here, and a level its name.
abbrev client_of : WebhookConfig → Option Text
client_of w = some w.url

abbrev level_of : Text → Option Text
level_of v = some v

abbrev first_config : Config
first_config = with_endpoint (b'u' ∷ [])

abbrev second_config : Config
second_config = record first_config {
  webhook = record first_config.webhook { enabled = true; url = b'h' ∷ [] };
}

abbrev at_start : Running Text Text
at_start = record { active = first_config; hook = none; level = first_config.log.level }

at_start-IsInSync : IsInSync never_equal client_of level_of first_config at_start
unfolding defaults
at_start-IsInSync = (inr (refl, refl), refl, (refl, refl, refl, refl, refl, refl))

reload_all-IsInSync_example :
    IsInSync never_equal client_of level_of first_config
      (reload_all never_equal client_of level_of (loaded second_config ∷ unreadable ∷ []) at_start)
reload_all-IsInSync_example =
    reload_all-IsInSync never_equal client_of level_of first_config
      (loaded second_config ∷ unreadable ∷ []) at_start never_equal-IsSound at_start-IsInSync
