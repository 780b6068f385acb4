-- ===== src/Webhook/Setup/Tests.antt =====
-- The webhook of settings at a concrete input: a lower-case level, and a robot that refuses.
use log_collector.Base.{◌≡◌, ◌↔◌, refl, true, false, Option, none, some, [], ◌∷◌, text_eq, nat_eq}
use log_collector.Base.Int.{pos}
use log_collector.Base.Text.{Text, bytes}
use log_collector.Utf8.{runes, encode}
use log_collector.Model.{Record, Time, zero_time}
use log_collector.Config.{WebhookConfig}
use log_collector.Config.Validate.{
  validate_webhook, validate_severity_levels, validate_keyword_list, level_names, is_blank,
  normalize,
}
use log_collector.Webhook.{Client, content, message}
use log_collector.Webhook.Setup.{Url, Host, new_client, Reply, replied, send}
use log_collector.Webhook.Setup.Laws.{IsWanted, IsAcknowledged, send-new_client}

abbrev settings : WebhookConfig
settings = record {
  enabled = true;
  url = bytes "u";
  title = [];
  environment = [];
  severity_levels = bytes "warn" ∷ [];
  ignore_keywords = bytes "x" ∷ [];
  error_type_keywords = [];
  timeout = pos 5;
  max_content_length = pos 100;
}

settings_valid : validate_webhook settings ≡ none
unfolding validate_webhook text_eq bytes validate_severity_levels level_names normalize encode runes
    validate_keyword_list is_blank
settings_valid = refl

abbrev any_url : Text → Option Url
any_url s = some (record { scheme = bytes "http"; host = s })

abbrev host : Host
host = record { node_ip = []; hostname = bytes "h" }

abbrev no_stamp : Time → Text
no_stamp t = []

abbrev client : Client
client = record {
  title = [];
  environment = [];
  hostname = bytes "h";
  max_content_length = 100;
  ignore_keywords = bytes "x" ∷ [];
  error_type_keywords = [];
  severity_levels = bytes "WARN" ∷ [];
  format_time = no_stamp;
}

client_made : new_client any_url host no_stamp settings ≡ some client
unfolding new_client bytes text_eq encode normalize runes
client_made = refl

abbrev refuses : Text → Reply
refuses m = replied 200 (some (pos 93000))

abbrev warned : Record
warned = record {
  body = bytes "a";
  timestamp = zero_time;
  observed_timestamp = zero_time;
  severity_text = bytes "WARN";
  severity_number = 13;
  dropped = false;
  trace_id = [];
  attributes = none;
  resource_attributes = [];
  resource_key = [];
}

send-new_client_example :
    ((m : Text)
      → (message client zero_time warned ≡ some m)
        ↔ (IsWanted settings warned × (content client zero_time warned ≡ m)))
    × ((send client zero_time refuses warned ≡ none)
        ↔ (IsWanted settings warned → IsAcknowledged (refuses (content client zero_time warned))))
send-new_client_example =
    send-new_client any_url host no_stamp settings client zero_time refuses warned settings_valid
      client_made
