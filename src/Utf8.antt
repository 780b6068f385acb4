-- ===== src/Utf8.antt =====
-- The conversion `[]rune(s)`, on which internal/tailer/tailer.go (`truncateRunes`) and
-- internal/webhook/wechat.go (`runeLen`, `truncate`) rest: Go's decoding of UTF-8.
pub mod Laws
pub mod Prefix
use log_collector.Base.{
  ℕ, zero, suc, ◌+◌, ◌-◌, ◌*◌, ◌≡◌, Bool, true, false, ◌&&◌, List, [], ◌∷◌, ◌++◌, ltb, leb, take,
  if◌then◌else◌,
}
use log_collector.Base.Text.{Text, rune_error, encode_rune}

abbrev pub is_cont : ℕ → Bool
is_cont c = leb 0x80 c && leb c 0xbf

-- A rune and the number of bytes beyond the first that it takes.
abbrev Decoded : Type 0
Decoded = ℕ × ℕ

abbrev invalid : Decoded
invalid = (rune_error, 0)

decode_two : ℕ → Text → Decoded
decode_two b [] = invalid
decode_two b (c ∷ s) = if is_cont c then ((b - 0xc0) * 64 + (c - 0x80), 1) else invalid

-- `lo` and `hi` bound the second byte.
decode_three : ℕ → ℕ → ℕ → Text → Decoded
decode_three lo hi b (c ∷ d ∷ s) =
    if leb lo c && leb c hi && is_cont d
    then ((b - 0xe0) * 4096 + (c - 0x80) * 64 + (d - 0x80), 2)
    else invalid
decode_three lo hi b _ = invalid

decode_four : ℕ → ℕ → ℕ → Text → Decoded
decode_four lo hi b (c ∷ d ∷ e ∷ s) =
    if leb lo c && leb c hi && is_cont d && is_cont e
    then ((b - 0xf0) * 262144 + (c - 0x80) * 4096 + (d - 0x80) * 64 + (e - 0x80), 3)
    else invalid
decode_four lo hi b _ = invalid

-- The range of the second byte, by the first.
low_three : ℕ → ℕ
low_three b = if leb b 0xe0 then 0xa0 else 0x80

high_three : ℕ → ℕ
high_three b = if leb b 0xec then 0xbf else if leb b 0xed then 0x9f else 0xbf

low_four : ℕ → ℕ
low_four b = if leb b 0xf0 then 0x90 else 0x80

high_four : ℕ → ℕ
high_four b = if leb b 0xf3 then 0xbf else 0x8f

-- The rune that begins with byte `b` before `s`.
decode : ℕ → Text → Decoded
decode b s =
    if ltb b 0x80
    then (b, 0)
    else if ltb b 0xc2
    then invalid
    else if ltb b 0xe0
    then decode_two b s
    else if ltb b 0xf0
    then decode_three (low_three b) (high_three b) b s
    else if ltb b 0xf5
    then decode_four (low_four b) (high_four b) b s
    else invalid

-- The runes of a text of which the first bytes, as many as the first argument, are read already.
unfoldable pub runes_from : ℕ → Text → List ℕ
unfolding decode decode_two decode_three decode_four low_three high_three low_four high_four
runes_from n [] = []
runes_from (suc n) (b ∷ s) = runes_from n s
runes_from zero (b ∷ s) = let (r, extra) = decode b s in r ∷ runes_from extra s

-- `[]rune(s)`
unfoldable pub runes : Text → List ℕ
unfolding runes_from
runes s = runes_from 0 s

-- `string(rs)`
unfoldable pub encode : List ℕ → Text
unfolding encode_rune
encode [] = []
encode (r ∷ rs) = encode_rune r ++ encode rs

-- Valid UTF-8: decoding and encoding the text gives it again.
abbrev pub IsUtf8 : Text → Type 0
IsUtf8 s = encode (runes s) ≡ s
