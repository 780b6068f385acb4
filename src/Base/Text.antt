-- ===== src/Base/Text.antt =====
-- Go strings as lists of bytes, the UTF-8 encoding of a rune, and the functions of the package
-- `strings` that the program calls.
use Prim.Native.Char.{code}
use Prim.Native.String.{String}
use log_collector.Base.Tests.{leb, ltb, ◌==◌, nat_eq, text_eq, if◌then◌else◌}
use log_collector.Base.Lists.{length, take, drop}
use Prim.Native.Nat.{ℕ, zero, suc, ◌+◌, ◌-◌, ◌/◌, ◌%◌}
use mathlib.Core.Bool.{Bool, true, false, ◌&&◌, ◌||◌}
use mathlib.Core.List.{List, [], ◌∷◌, ◌++◌}

abbrev pub Text : Type 0
Text = List ℕ

-- `utf8.RuneError`, which stands for what is not valid.
abbrev pub rune_error : ℕ
rune_error = 0xfffd

-- A rune that UTF-8 encodes as itself: no surrogate, and at most U+10FFFF.
abbrev pub is_scalar : ℕ → Bool
is_scalar r = ltb r 0xd800 || (leb 0xe000 r && leb r 0x10ffff)

-- The bytes of one rune in `string([]rune{r})`.
unfoldable pub encode_rune : ℕ → Text
encode_rune r =
    if ltb r 0x80
    then r ∷ []
    else if ltb r 0x800
    then (0xc0 + r / 64) ∷ (0x80 + r % 64) ∷ []
    else if is_scalar r
    then if ltb r 0x10000
      then (0xe0 + r / 4096) ∷ (0x80 + r / 64 % 64) ∷ (0x80 + r % 64) ∷ []
      else (0xf0 + r / 262144)
        ∷ (0x80 + r / 4096 % 64)
        ∷ (0x80 + r / 64 % 64)
        ∷ (0x80 + r % 64)
        ∷ []
    else 0xef ∷ 0xbf ∷ 0xbd ∷ []

-- The bytes of a literal of the source.
unfoldable pub bytes : String → Text
unfolding encode_rune
bytes String.[] = []
bytes (String.◌∷◌ c s) = encode_rune (code c) ++ bytes s

unfoldable pub has_prefix : Text → Text → Bool
has_prefix s [] = true
has_prefix [] (p ∷ ps) = false
has_prefix (c ∷ s) (p ∷ ps) = c == p && has_prefix s ps

-- `strings.Contains`
unfoldable pub contains : Text → Text → Bool
unfolding has_prefix
contains [] p = has_prefix [] p
contains (c ∷ s) p = has_prefix (c ∷ s) p || contains s p

-- `strings.TrimSuffix`
unfoldable pub trim_suffix : Text → Text → Text
trim_suffix s suffix =
    let n = length s - length suffix in if drop n s == suffix then take n s else s

unfoldable pub cons_part : ℕ → List Text → List Text
cons_part c [] = (c ∷ []) ∷ []
cons_part c (p ∷ ps) = (c ∷ p) ∷ ps

-- `strings.SplitN` at one byte, with at most `suc n` parts.
unfoldable pub split_n : ℕ → ℕ → Text → List Text
unfolding cons_part
split_n sep zero s = s ∷ []
split_n sep (suc n) [] = [] ∷ []
split_n sep (suc n) (c ∷ s) =
    if c == sep then [] ∷ split_n sep n s else cons_part c (split_n sep (suc n) s)

-- `strings.Split` at one byte.
unfoldable pub split : ℕ → Text → List Text
unfolding cons_part
split sep [] = [] ∷ []
split sep (c ∷ s) = let rest = split sep s in if c == sep then [] ∷ rest else cons_part c rest

-- What stands before the first `sep`, or all.
unfoldable pub before : ℕ → Text → Text
before sep [] = []
before sep (c ∷ s) = if c == sep then [] else c ∷ before sep s

-- `strings.ToUpper` of ASCII text.
unfoldable pub to_upper : Text → Text
to_upper [] = []
to_upper (c ∷ s) = (if leb b'a' c && leb c b'z' then c - 32 else c) ∷ to_upper s
