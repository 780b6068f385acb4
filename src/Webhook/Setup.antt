-- ===== src/Webhook/Setup.antt =====
-- internal/webhook/wechat.go: `New`, and what `Send` makes of the reply. `url.Parse`, the environment,
-- the format of a time stamp and the HTTP round trip are parameters.
pub mod Laws
pub mod Tests
use log_collector.Base.{
  ℕ, ◌-◌, Bool, true, false, not, ◌&&◌, ◌||◌, Option, none, some, List, [], ◌∷◌, ◌++◌, ◌==◌,
  text_eq, map, take, drop, leb, ltb, length, if◌then◌else◌,
}
use log_collector.Base.Int.{ℤ, pos, pos_part, int_eq}
use log_collector.Base.Text.{Text, bytes}
use log_collector.Utf8.{runes, encode}
use log_collector.Model.{Record, Time}
use log_collector.Config.{WebhookConfig}
use log_collector.Config.Validate.{is_space, is_nil, normalize}
use log_collector.Webhook.{Client, message, first_nonempty}

-- What `New` asks of a `url.URL`.
pub record Url : Type 0 where
  pub scheme : Text
  pub host : Text

abbrev while_space : List ℕ → List ℕ
while_space [] = []
while_space (c ∷ s) = let rest = while_space s in if is_space c then c ∷ rest else []

abbrev backwards : List ℕ → List ℕ → List ℕ
backwards seen [] = seen
backwards seen (c ∷ s) = backwards (c ∷ seen) s

-- `strings.TrimSpace`
unfoldable pub trim_space : Text → Text
unfolding is_space
trim_space s =
    let rest = drop (length (encode (while_space (runes s)))) s in
    take (length rest - length (encode (while_space (backwards [] (runes rest))))) rest

-- The levels, or the default ones.
unfoldable pub levels_of : List Text → List Text
unfolding bytes
levels_of levels = if is_nil levels then bytes "ERROR" ∷ bytes "FATAL" ∷ [] else levels

-- The values of NODE_IP and of `os.Hostname`, empty where there is none.
pub record Host : Type 0 where
  pub node_ip : Text
  pub hostname : Text

-- `New`; none is an error. The limit is positive by `Validate`.
unfoldable pub new_client :
    (Text → Option Url) → Host → (Time → Text) → WebhookConfig → Option Client
unfolding trim_space levels_of bytes
new_client parse_url host format_time cfg = elim (parse_url cfg.url) [
  | none ↦ none
  | some url ↦
      if (not (url.scheme == bytes "http") && not (url.scheme == bytes "https")) || (url.host == [])
      then none
      else some (record {
        title = cfg.title;
        environment = trim_space cfg.environment;
        hostname = first_nonempty (trim_space host.node_ip) host.hostname;
        max_content_length = pos_part cfg.max_content_length;
        ignore_keywords = cfg.ignore_keywords;
        error_type_keywords = cfg.error_type_keywords;
        severity_levels = map normalize (levels_of cfg.severity_levels);
        format_time = format_time;
      })
]

-- What comes of posting a message: no request or no reply, a reply that cannot be read, or its status
-- and the error code that its body decodes to, if it does.
pub data Reply : Type 0 where
  unsent unread : Reply
  replied : ℕ → Option ℤ → Reply

pub data SendError : Type 0 where
  not_sent not_read not_decoded : SendError
  bad_status : ℕ → SendError
  not_accepted : ℤ → SendError

unfoldable pub check_reply : Reply → Option SendError
check_reply unsent = some not_sent
check_reply unread = some not_read
check_reply (replied status body) =
    if ltb status 200 || leb 300 status then some (bad_status status) else elim body [
      | none ↦ some not_decoded
      | some code ↦ if code == pos 0 then none else some (not_accepted code)
    ]

-- `Send`; none is nil.
unfoldable pub send : Client → Time → (Text → Reply) → Record → Option SendError
unfolding check_reply
send c now post r = elim (message c now r) [ none ↦ none | some m ↦ check_reply (post m) ]
