-- ===== src/Webhook/Tests.antt =====
-- The webhook's theorems at concrete inputs.
use log_collector.Base.{◌≤◌, refl, true, [], ◌∷◌, text_eq}
use log_collector.Base.Text.{Text}
use log_collector.Utf8.{runes, encode, IsUtf8}
use log_collector.Webhook.{rune_len, MarkdownAlert, render}
use log_collector.Webhook.Laws.{IsValidAlert, render_bounded}

abbrev two_lines : Text
two_lines = b'a' ∷ 10 ∷ b'<' ∷ []

abbrev alert : MarkdownAlert
alert = record {
  title = b't' ∷ [];
  fields = record { label = b'l' ∷ []; value = b'v' ∷ []; highlighted = true } ∷ [];
  body = two_lines;
}

alert_valid : IsValidAlert alert
unfolding runes encode
alert_valid = record {
  title_valid = refl;
  fields_valid = (record { label_valid = refl; value_valid = refl }, tt);
  body_valid = refl;
}

render_bounded_example : IsUtf8 (render alert 60) × (rune_len (render alert 60) ≤ 60)
render_bounded_example = render_bounded alert 60 alert_valid
