-- ===== src/Webhook.antt =====
-- internal/webhook/wechat.go: the message of an alert, and which records make one. A number of runes
-- is that of a text in memory, and `maxContentLength` is positive by `Validate`, so both are natural.
pub mod Utf8
pub mod Laws
pub mod Sending
pub mod Setup
pub mod Tests
use log_collector.Base.{
  ℕ, ◌+◌, ◌-◌, Bool, true, false, not, ◌&&◌, ◌||◌, Option, none, some, List, [], ◌∷◌, ◌++◌, ◌==◌,
  nat_eq, text_eq, ltb, leb, length, take, any, if◌then◌else◌,
}
use log_collector.Base.Dict.{Dict, lookup}
use log_collector.Base.Int.{int_eq}
use log_collector.Base.Text.{Text, bytes, contains, split}
use log_collector.Utf8.{runes, encode}
use log_collector.Model.{Record, Time, zero_time}

-- `runeLen`
unfoldable pub rune_len : Text → ℕ
rune_len value = length (runes value)

unfoldable pub truncated_suffix : Text
unfolding bytes
truncated_suffix = bytes "...[truncated]"

-- `truncate`
unfoldable pub truncate : Text → ℕ → Text
truncate value limit =
    let rs = runes value in
    let suffix_length = length (runes truncated_suffix) in
    if leb (length rs) limit
    then value
    else if leb limit suffix_length
    then encode (take limit rs)
    else encode (take (limit - suffix_length) rs) ++ truncated_suffix

-- `escape`: the replacer puts a backslash before each of four bytes.
unfoldable pub is_special : ℕ → Bool
is_special c = c == 0x5c || c == 0x60 || c == b'<' || c == b'>'

unfoldable pub escape : Text → Text
unfolding is_special
escape [] = []
escape (c ∷ s) = if is_special c then 0x5c ∷ c ∷ escape s else c ∷ escape s

-- `markdownWriter`
pub record Writer : Type 0 where
  pub content : Text
  pub remaining : ℕ

abbrev pub new_writer : ℕ → Writer
new_writer limit = record { content = []; remaining = limit }

abbrev pub separator : Writer → Text
separator w = if w.content == [] then [] else 10 ∷ []

-- `line`; false means that there was no room.
unfoldable pub line : Text → Text → Text → Writer → Bool × Writer
line prefix value suffix w =
    let fixed = rune_len (separator w) + rune_len prefix + rune_len suffix in
    let rendered = truncate value (w.remaining - fixed) in
    if ltb w.remaining fixed then (false, w) else (
      true,
      record {
        content = w.content ++ separator w ++ prefix ++ rendered ++ suffix;
        remaining = w.remaining - (fixed + rune_len rendered);
      },
    )

-- `blankLine`
unfoldable pub blank_line : Writer → Writer
blank_line w =
    if ltb 0 w.remaining && not (w.content == [])
    then record { content = w.content ++ 10 ∷ []; remaining = w.remaining - 1 }
    else w

-- `alertField`
pub record AlertField : Type 0 where
  pub label : Text
  pub value : Text
  pub highlighted : Bool

unfoldable pub warning_open : Text
unfolding bytes
warning_open = bytes "<font color=\"warning\">"

unfoldable pub warning_close : Text
unfolding bytes
warning_close = bytes "</font>"

unfoldable pub field_prefix : AlertField → Text
unfolding bytes
field_prefix f =
    let prefix = bytes "> **" ++ f.label ++ bytes "：** " in
    if f.highlighted then prefix ++ warning_open else prefix

-- `field`
unfoldable pub field : AlertField → Writer → Writer
field f w =
    if f.value == []
    then w
    else (line (field_prefix f) (escape f.value) (if f.highlighted then warning_close else []) w).1

-- `markdownAlert`
pub record MarkdownAlert : Type 0 where
  pub title : Text
  pub fields : List AlertField
  pub body : Text

unfoldable pub write_fields : List AlertField → Writer → Writer
write_fields [] w = w
write_fields (f ∷ fs) w = write_fields fs (field f w)

-- The loop over the lines of the body, which ends when there is no room.
unfoldable pub write_lines : List Text → Writer → Writer
unfolding bytes
write_lines [] w = w
write_lines (l ∷ ls) w =
    let (room, w') = line (bytes "> " ++ warning_open) (escape l) warning_close w in
    let rest = write_lines ls w' in if room then rest else w'

-- `render`
unfoldable pub render : MarkdownAlert → ℕ → Text
unfolding bytes
render a limit =
    let titled = (line (bytes "### 🚨 ") (escape a.title) [] (new_writer limit)).1 in
    let headed = blank_line (write_fields a.fields titled) in
    (write_lines (split 10 a.body) (line (bytes "**日志内容**") [] [] headed).1).content

-- `firstMatchingKeyword`
unfoldable pub first_matching_keyword : Text → List Text → Text
first_matching_keyword body [] = []
first_matching_keyword body (k ∷ ks) = if contains body k then k else first_matching_keyword body ks

-- `firstNonEmpty` of two values.
abbrev pub first_nonempty : Text → Text → Text
first_nonempty a b = if a == [] then b else a

-- What `New` keeps of the configuration, with `time.Time.Format` for the time stamps.
pub record Client : Type 0 where
  pub title : Text
  pub environment : Text
  pub hostname : Text
  pub max_content_length : ℕ
  pub ignore_keywords : List Text
  pub error_type_keywords : List Text
  pub severity_levels : List Text
  pub format_time : Time → Text

-- A map's value, which is empty for a key that it does not have.
abbrev pub value_at : Text → Dict Text → Text
value_at k d = elim (lookup k d) [ none ↦ [] | some v ↦ v ]

abbrev pub attribute_at : Text → Option (Dict Text) → Text
attribute_at k none = []
attribute_at k (some d) = value_at k d

abbrev plain : Text → Text → AlertField
plain label value = record { label = label; value = value; highlighted = false }

abbrev highlight : Text → Text → AlertField
highlight label value = record { label = label; value = value; highlighted = true }

unfoldable pub alert_of : Client → Time → Record → MarkdownAlert
unfolding bytes
alert_of c now r =
    let stamp = if r.timestamp == zero_time then now else r.timestamp in
    record {
      title = first_nonempty c.title (bytes "日志异常告警");
      fields =
          plain (bytes "环境") c.environment
          ∷ plain (bytes "主机")
              (first_nonempty (value_at (bytes "host.name") r.resource_attributes) c.hostname)
          ∷ plain (bytes "时间") (c.format_time stamp)
          ∷ highlight (bytes "日志级别") r.severity_text
          ∷ highlight (bytes "错误类型") (first_matching_keyword r.body c.error_type_keywords)
          ∷ plain (bytes "日志来源") (value_at (bytes "log.source.rule") r.resource_attributes)
          ∷ highlight (bytes "请求 ID") (attribute_at (bytes "request.id") r.attributes)
          ∷ plain (bytes "日志文件") (value_at (bytes "log.file.path") r.resource_attributes)
          ∷ [];
      body = r.body;
    }

-- `content`
unfoldable pub content : Client → Time → Record → Text
content c now r = render (alert_of c now r) c.max_content_length

-- The message that `Send` posts, or none where it posts nothing.
unfoldable pub message : Client → Time → Record → Option Text
message c now r =
    if not (any (λ level. level == r.severity_text) c.severity_levels)
    then none
    else if not (first_matching_keyword r.body c.ignore_keywords == [])
    then none
    else some (content c now r)
