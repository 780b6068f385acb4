-- ===== src/Webhook/Laws.antt =====
-- internal/webhook/wechat.go, `truncate`, the writer and `render`: lengths in runes.
use log_collector.Base.{
  ℕ, ◌+◌, ◌-◌, ◌≤◌, ◌≡◌, refl, ap, ◌∙◌, inl, inr, Bool, true, false, List, [], ◌∷◌, ◌++◌, All,
  All-take, leb, ltb, length, length-append, length-take, take, arith, Bool-cases, if◌then◌else◌,
  not, ◌&&◌, ◌==◌, text_eq,
}
use log_collector.Base.Text.{Text, bytes, split}
use log_collector.Utf8.{runes, encode, IsUtf8}
use log_collector.Utf8.Laws.{runes-encode, runes-is_scalar}
use log_collector.Webhook.{
  rune_len, truncated_suffix, truncate, escape, Writer, new_writer, separator, line, blank_line,
  AlertField, field, field_prefix, warning_open, warning_close, MarkdownAlert, write_fields,
  write_lines, render,
}
use log_collector.Webhook.Utf8.{
  runes-append, append-IsUtf8, take-IsUtf8, byte-IsUtf8, nil-IsUtf8, escape-IsUtf8, split-IsUtf8,
}

rune_len-append : (a b : Text) → IsUtf8 a → IsUtf8 b → rune_len (a ++ b) ≡ rune_len a + rune_len b
unfolding rune_len
rune_len-append a b h k = ap length (runes-append a b h k) ∙ length-append (runes a) (runes b)

suffix-IsUtf8 : IsUtf8 truncated_suffix
unfolding truncated_suffix bytes runes encode
suffix-IsUtf8 = refl

either-IsUtf8 : (b : Bool) (s t : Text) → IsUtf8 s → IsUtf8 t → IsUtf8 (if b then s else t)
either-IsUtf8 true s t h k = h
either-IsUtf8 false s t h k = k

taken_bounded : (n : ℕ) (s : Text) → rune_len (encode (take n (runes s))) ≤ n
unfolding rune_len
taken_bounded n s = omega (
  arith,
  length-take n (runes s),
  ap length (runes-encode (take n (runes s)) (All-take _ n (runes s) (runes-is_scalar s))),
)

-- A value that is cut keeps within the limit, and is valid if the value is.
pub truncate-IsUtf8 : (value : Text) (limit : ℕ) → IsUtf8 value → IsUtf8 (truncate value limit)
unfolding truncate
truncate-IsUtf8 value limit h = either-IsUtf8 (leb (length (runes value)) limit) _ _ h (
    either-IsUtf8 (leb limit (length (runes truncated_suffix))) _ _ (take-IsUtf8 limit value) (
      append-IsUtf8 (encode (take (limit - length (runes truncated_suffix)) (runes value)))
        truncated_suffix (take-IsUtf8 (limit - length (runes truncated_suffix)) value)
        suffix-IsUtf8))

pub truncate_bounded : (value : Text) (limit : ℕ) → rune_len (truncate value limit) ≤ limit
unfolding truncate rune_len
truncate_bounded value limit = elim (Bool-cases (leb (length (runes value)) limit)) [
  | inl fits ↦ rw fits (ground (arith, fits))
  | inr long ↦ elim (Bool-cases (leb limit (length (runes truncated_suffix)))) [
    | inl short ↦ rw (long, short) (taken_bounded limit value)
    | inr room ↦
        rw (long, room)
          (let n : ℕ = limit - length (runes truncated_suffix) in
            let joined =
              rune_len-append (encode (take n (runes value))) truncated_suffix (take-IsUtf8 n value)
                suffix-IsUtf8 in
            ground (arith, room, joined, taken_bounded n value))
  ]
]

-- The writer has never more runes than its limit allows.
record IsWithin (limit : ℕ) (w : Writer) : Type 0 where
  valid : IsUtf8 w.content
  counted : rune_len w.content + w.remaining ≡ limit

separator-IsUtf8 : (w : Writer) → IsUtf8 (separator w)
separator-IsUtf8 w =
    either-IsUtf8 (w.content == []) [] (10 ∷ []) nil-IsUtf8 (byte-IsUtf8 10 (omega arith))

-- What `line` writes, where there is room.
written-IsWithin :
    (limit fixed : ℕ) (a b c d : Text) (w : Writer)
    → IsUtf8 a
    → IsUtf8 b
    → IsUtf8 c
    → IsUtf8 d
    → fixed ≡ rune_len a + rune_len b + rune_len d
    → fixed + rune_len c ≤ w.remaining
    → IsWithin limit w
    → IsWithin limit (record {
      content = w.content ++ a ++ b ++ c ++ d;
      remaining = w.remaining - (fixed + rune_len c);
    })
written-IsWithin limit fixed a b c d w ha hb hc hd sum room x =
    let wa = append-IsUtf8 w.content a x.valid ha in
    let wab = append-IsUtf8 (w.content ++ a) b wa hb in
    let wabc = append-IsUtf8 (w.content ++ a ++ b) c wab hc in
    record {
      valid = append-IsUtf8 (w.content ++ a ++ b ++ c) d wabc hd;
      counted = omega (
        arith,
        sum,
        room,
        x.counted,
        rune_len-append w.content a x.valid ha,
        rune_len-append (w.content ++ a) b wa hb,
        rune_len-append (w.content ++ a ++ b) c wab hc,
        rune_len-append (w.content ++ a ++ b ++ c) d wabc hd,
      );
    }

line-IsWithin :
    (limit : ℕ) (prefix value suffix : Text) (w : Writer)
    → IsUtf8 prefix
    → IsUtf8 value
    → IsUtf8 suffix
    → IsWithin limit w
    → IsWithin limit (line prefix value suffix w).1
unfolding line
line-IsWithin limit prefix value suffix w p v s x =
    let fixed : ℕ = rune_len (separator w) + rune_len prefix + rune_len suffix in
    elim (Bool-cases (ltb w.remaining fixed)) [
      | inl full ↦ rw full x
      | inr room ↦ rw room (
          written-IsWithin limit fixed (separator w) prefix (truncate value (w.remaining - fixed))
            suffix w (separator-IsUtf8 w) p (truncate-IsUtf8 value (w.remaining - fixed) v) s refl
            (ground (arith, room, truncate_bounded value (w.remaining - fixed))) x)
    ]

newline_len : rune_len (10 ∷ []) ≡ 1
unfolding rune_len runes
newline_len = refl

blank_line-IsWithin : (limit : ℕ) (w : Writer) → IsWithin limit w → IsWithin limit (blank_line w)
unfolding blank_line
blank_line-IsWithin limit w x = elim (Bool-cases (ltb 0 w.remaining && not (w.content == []))) [
  | inr none_left ↦ rw none_left x
  | inl room ↦ rw room (record {
    valid = append-IsUtf8 w.content (10 ∷ []) x.valid (byte-IsUtf8 10 (omega arith));
    counted = ground (
      arith,
      room,
      x.counted,
      newline_len,
      rune_len-append w.content (10 ∷ []) x.valid (byte-IsUtf8 10 (omega arith)),
    );
  })
]

-- The texts of a field.
pub record IsValidField (f : AlertField) : Type 0 where
  pub label_valid : IsUtf8 f.label
  pub value_valid : IsUtf8 f.value

open-IsUtf8 : IsUtf8 warning_open
unfolding warning_open bytes runes encode
open-IsUtf8 = refl

close-IsUtf8 : IsUtf8 warning_close
unfolding warning_close bytes runes encode
close-IsUtf8 = refl

quote_mark : IsUtf8 (bytes "> **")
unfolding bytes runes encode
quote_mark = refl

colon : IsUtf8 (bytes "：** ")
unfolding bytes runes encode
colon = refl

field_prefix-IsUtf8 : (f : AlertField) → IsValidField f → IsUtf8 (field_prefix f)
unfolding field_prefix bytes
field_prefix-IsUtf8 f v =
    let front = append-IsUtf8 (bytes "> **") f.label quote_mark v.label_valid in
    let plain = append-IsUtf8 (bytes "> **" ++ f.label) (bytes "：** ") front colon in
    either-IsUtf8 f.highlighted _ _ (append-IsUtf8 _ warning_open plain open-IsUtf8) plain

field-IsWithin :
    (limit : ℕ) (f : AlertField) (w : Writer)
    → IsValidField f
    → IsWithin limit w
    → IsWithin limit (field f w)
unfolding field
field-IsWithin limit f w v x = elim (Bool-cases (f.value == [])) [
  | inl no_value ↦ rw no_value x
  | inr value ↦ rw value (
      line-IsWithin limit (field_prefix f) (escape f.value)
        (if f.highlighted then warning_close else []) w (field_prefix-IsUtf8 f v)
        (escape-IsUtf8 f.value v.value_valid)
        (either-IsUtf8 f.highlighted warning_close [] close-IsUtf8 nil-IsUtf8) x)
]

write_fields-IsWithin :
    (limit : ℕ) (fs : List AlertField) (w : Writer)
    → All IsValidField fs
    → IsWithin limit w
    → IsWithin limit (write_fields fs w)
unfolding write_fields
write_fields-IsWithin limit [] w v x = x
write_fields-IsWithin limit (f ∷ fs) w (v, vs) x =
    write_fields-IsWithin limit fs (field f w) vs (field-IsWithin limit f w v x)

quoted-IsUtf8 : IsUtf8 (bytes "> " ++ warning_open)
unfolding warning_open bytes runes encode
quoted-IsUtf8 = refl

either-IsWithin :
    (limit : ℕ) (b : Bool) (v w : Writer)
    → IsWithin limit v
    → IsWithin limit w
    → IsWithin limit (if b then v else w)
either-IsWithin limit true v w h k = h
either-IsWithin limit false v w h k = k

write_lines-IsWithin :
    (limit : ℕ) (ls : List Text) (w : Writer)
    → All IsUtf8 ls
    → IsWithin limit w
    → IsWithin limit (write_lines ls w)
unfolding write_lines
write_lines-IsWithin limit [] w v x = x
write_lines-IsWithin limit (l ∷ ls) w (v, vs) x =
    let written =
      line-IsWithin limit (bytes "> " ++ warning_open) (escape l) warning_close w quoted-IsUtf8
        (escape-IsUtf8 l v) close-IsUtf8 x in
    either-IsWithin limit (line (bytes "> " ++ warning_open) (escape l) warning_close w).0 _ _
      (write_lines-IsWithin limit ls _ vs written) written

title-IsUtf8 : IsUtf8 (bytes "### 🚨 ")
unfolding bytes runes encode
title-IsUtf8 = refl

heading-IsUtf8 : IsUtf8 (bytes "**日志内容**")
unfolding bytes runes encode
heading-IsUtf8 = refl

new_writer-IsWithin : (limit : ℕ) → IsWithin limit (new_writer limit)
unfolding runes encode rune_len
new_writer-IsWithin limit = record { valid = refl; counted = omega arith }

-- The texts of an alert.
pub record IsValidAlert (a : MarkdownAlert) : Type 0 where
  pub title_valid : IsUtf8 a.title
  pub fields_valid : All IsValidField a.fields
  pub body_valid : IsUtf8 a.body

-- A message is valid UTF-8 and holds at most limit runes, whatever the lengths of its title, its
-- fields and its body, which are valid UTF-8.
pub render_bounded :
    (a : MarkdownAlert) (limit : ℕ)
    → IsValidAlert a
    → IsUtf8 (render a limit) × (rune_len (render a limit) ≤ limit)
unfolding render
render_bounded a limit v =
    let titled =
      line-IsWithin limit (bytes "### 🚨 ") (escape a.title) [] (new_writer limit) title-IsUtf8
        (escape-IsUtf8 a.title v.title_valid) nil-IsUtf8 (new_writer-IsWithin limit) in
    let headed =
      blank_line-IsWithin limit _ (write_fields-IsWithin limit a.fields _ v.fields_valid titled) in
    let headline =
      line-IsWithin limit (bytes "**日志内容**") [] [] _ heading-IsUtf8 nil-IsUtf8 nil-IsUtf8 headed in
    let x =
      write_lines-IsWithin limit (split 10 a.body) _ (split-IsUtf8 a.body v.body_valid) headline in
    (x.valid, omega (arith, x.counted))
