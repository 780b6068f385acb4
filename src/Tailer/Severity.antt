-- ===== src/Tailer/Severity.antt =====
-- internal/tailer/tailer.go: `severityPattern` and `parseSeverity`. The pattern is written out as
-- the leftmost-first matching of package regexp: at each position the alternatives in their order,
-- of which only `WARN(?:ING)?` hides two. Its letters fold within ASCII alone.
pub mod Laws
use log_collector.Base.{
  ℕ, ◌-◌, Bool, true, false, ◌&&◌, ◌||◌, Option, none, some, List, [], ◌∷◌, leb, ◌==◌, nat_eq,
  text_eq, length, take, if◌then◌else◌,
}
use log_collector.Base.Text.{Text, bytes, to_upper, before}

abbrev pub newline : ℕ
newline = 10

-- `[\s\[\]():=\-]`
unfoldable pub is_delimiter : ℕ → Bool
is_delimiter c =
    c == 9
    || c == 10
    || c == 12
    || c == 13
    || c == 32
    || c == b'['
    || c == b']'
    || c == b'('
    || c == b')'
    || c == b':'
    || c == b'='
    || c == b'-'

-- `(?:$|[\s\[\]():=\-])`
unfoldable pub ends : Text → Bool
ends [] = true
ends (c ∷ s) = is_delimiter c

upper_byte : ℕ → ℕ
upper_byte c = if leb b'a' c && leb c b'z' then c - 32 else c

-- What stands behind a word at the front, in any letter case.
unfoldable pub strip_fold : Text → Text → Option Text
unfolding upper_byte
strip_fold [] s = some s
strip_fold (w ∷ ws) [] = none
strip_fold (w ∷ ws) (c ∷ s) = if upper_byte c == w then strip_fold ws s else none

-- A word with its end, at the front of a text: the capture group.
unfoldable pub capture : Text → Text → Option Text
unfolding strip_fold
capture word s = elim (strip_fold word s) [
  | none ↦ none
  | some rest ↦ if ends rest then some (take (length word) s) else none
]

unfoldable pub capture_first : List Text → Text → Option Text
unfolding capture
capture_first [] s = none
capture_first (w ∷ ws) s = elim (capture w s) [ some m ↦ some m | none ↦ capture_first ws s ]

-- The alternatives of the pattern, in order.
unfoldable pub words : List Text
unfolding bytes
words =
    bytes "TRACE"
    ∷ bytes "DEBUG"
    ∷ bytes "INFO"
    ∷ bytes "NOTICE"
    ∷ bytes "WARNING"
    ∷ bytes "WARN"
    ∷ bytes "ERROR"
    ∷ bytes "ERR"
    ∷ bytes "FATAL"
    ∷ bytes "CRITICAL"
    ∷ bytes "CRIT"
    ∷ bytes "ALERT"
    ∷ bytes "EMERG"
    ∷ bytes "PANIC"
    ∷ []

-- A match behind a delimiter, at the first position that has one.
unfoldable pub find_delimited : Text → Option Text
find_delimited [] = none
find_delimited (c ∷ s) =
    let rest = find_delimited s in
    if is_delimiter c then elim (capture_first words s) [ some m ↦ some m | none ↦ rest ] else rest

-- `FindStringSubmatch`: at the start of the line `^` is tried first.
unfoldable pub find_severity : Text → Option Text
find_severity line = elim (capture_first words line) [
  | some m ↦ some m
  | none ↦ find_delimited line
]

-- The `switch` on the upper-case word.
unfoldable pub classify : Text → Text × ℕ
classify w =
    if w == bytes "TRACE"
    then (bytes "TRACE", 1)
    else if w == bytes "DEBUG"
    then (bytes "DEBUG", 5)
    else if w == bytes "INFO" || w == bytes "NOTICE"
    then (bytes "INFO", 9)
    else if w == bytes "WARN" || w == bytes "WARNING"
    then (bytes "WARN", 13)
    else if w == bytes "ERROR" || w == bytes "ERR"
    then (bytes "ERROR", 17)
    else if w == bytes "FATAL"
        || w == bytes "CRITICAL"
        || w == bytes "CRIT"
        || w == bytes "ALERT"
        || w == bytes "EMERG"
        || w == bytes "PANIC"
    then (bytes "FATAL", 21)
    else ([], 0)

-- `parseSeverity`
unfoldable pub parse_severity : Text → Text × ℕ
parse_severity body = elim (find_severity (before newline body)) [
  | none ↦ ([], 0)
  | some m ↦ classify (to_upper m)
]
