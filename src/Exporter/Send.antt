-- ===== src/Exporter/Send.antt =====
-- internal/exporter/otlphttp.go: `New`, and what `send` makes of the reply, with `parseRetryAfter`. The
-- packages net/url, net/http and time and the protobuf decoder are parameters. `none` is an error.
pub mod Laws
pub mod Tests
use log_collector.Base.{
  ℕ, Bool, true, false, not, ◌&&◌, ◌||◌, Option, none, some, List, [], ◌∷◌, ◌++◌, ◌==◌, text_eq,
  leb, ltb, if◌then◌else◌,
}
use log_collector.Base.Int.{ℤ, pos, ◌-ℤ◌, ltb_ℤ}
use log_collector.Base.Text.{Text, bytes}
use log_collector.Model.{Time}
use log_collector.Config.{ExportConfig}
use log_collector.Exporter.Retry.{SendResult, delivered, status_error, other_error, Attempt}

-- A `url.URL`, as far as `New` reads it.
pub record Url : Type 0 where
  pub scheme : Text
  pub host : Text
  pub path : Text

-- `New`: the settings with the endpoint completed; `print` is the `String` of a URL with its path changed.
unfoldable pub new_exporter :
    (Text → Option Url) → (Text → Text → Text) → ExportConfig → Option ExportConfig
unfolding bytes
new_exporter parse_url print cfg = elim (parse_url cfg.endpoint) [
  | none ↦ none
  | some u ↦
      if u.scheme == [] || u.host == []
      then none
      else if u.path == [] || u.path == bytes "/"
      then some (record cfg { endpoint = print cfg.endpoint (bytes "/v1/logs") })
      else some cfg
]

-- The body of a reply: it cannot be read, is empty, does not decode, or rejects a number of records.
pub data Body : Type 0 where
  unreadable empty undecodable : Body
  rejects : ℤ → Body

-- What comes of a request: none was made or no reply came; or the status, the header Retry-After and
-- the body of the reply.
pub data Reply : Type 0 where
  failed : Reply
  replied : ℕ → Text → Body → Reply

-- `parseRetryAfter`
unfoldable pub parse_retry_after : (Text → Option ℤ) → (Text → Option Time) → Time → Text → ℤ
unfolding bytes
parse_retry_after parse_duration parse_time now value =
    if value == [] then pos 0 else elim (parse_duration (value ++ bytes "s")) [
      | some seconds ↦ seconds
      | none ↦ elim (parse_time value) [
        | none ↦ pos 0
        | some when_ ↦ if ltb_ℤ (pos 0) (when_ -ℤ now) then when_ -ℤ now else pos 0
      ]
    ]

unfoldable pub check_body : Body → SendResult
check_body unreadable = other_error
check_body empty = delivered
check_body undecodable = other_error
check_body (rejects n) = if ltb_ℤ (pos 0) n then other_error else delivered

-- `send`, behind the request.
unfoldable pub send_result : (Text → ℤ) → Reply → SendResult
unfolding check_body
send_result retry_after failed = other_error
send_result retry_after (replied status header body) =
    if ltb status 200 || leb 300 status
    then status_error status (retry_after header)
    else check_body body

-- An attempt: the reply, the time since the start, and whether the context ends in the wait.
unfoldable pub attempt : (Text → ℤ) → Reply → ℤ → Bool → Attempt
unfolding send_result
attempt retry_after reply elapsed cancelled = record {
  result = send_result retry_after reply;
  elapsed = elapsed;
  cancelled = cancelled;
}
