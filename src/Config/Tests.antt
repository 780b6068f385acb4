-- ===== src/Config/Tests.antt =====
-- The configuration's theorems at concrete inputs.
use log_collector.Base.{◌≡◌, ◌↔◌, Option, none, some, [], ◌∷◌}
use log_collector.Base.Text.{Text}
use log_collector.Model.{Regexp}
use log_collector.Config.{Config}
use log_collector.Config.Validate.{validate}
use log_collector.Config.Valid.{IsValid}
use log_collector.Config.Valid.Sections.{validate_iff}
use log_collector.Config.Defaults.{defaults, loaded, load_config, with_endpoint, load_config_iff}

abbrev nothing_compiles : Text → Option Regexp
nothing_compiles p = none

validate_iff_example :
    (validate nothing_compiles (with_endpoint (b'u' ∷ [])) ≡ none)
    ↔ IsValid nothing_compiles (with_endpoint (b'u' ∷ []))
validate_iff_example = validate_iff nothing_compiles (with_endpoint (b'u' ∷ []))

abbrev one_file : Text → Option Text
one_file path = some (b'e' ∷ [])

-- A decoder that sets the endpoint.
abbrev decoder : Text → Config → Option Config
decoder b c = some (record c { export = record c.export { endpoint = b } })

load_config_iff_example :
    (load_config nothing_compiles one_file decoder (b'c' ∷ []) ≡ loaded (with_endpoint (b'e' ∷ [])))
    ↔ ((b : Text) × (one_file (b'c' ∷ []) ≡ some b)
        × (decoder b defaults ≡ some (with_endpoint (b'e' ∷ [])))
        × IsValid nothing_compiles (with_endpoint (b'e' ∷ [])))
load_config_iff_example =
    load_config_iff nothing_compiles one_file decoder (b'c' ∷ []) (with_endpoint (b'e' ∷ []))
