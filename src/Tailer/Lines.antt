-- ===== src/Tailer/Lines.antt =====
-- internal/tailer/tailer.go: `truncateRunes` and `readBoundedLine`, over the reader of the package
-- bufio. Counts of bytes are of texts in memory or of a file, so an `int64` holds them.
pub mod Laws
pub mod Reading
pub mod Complete
use log_collector.Base.{
  ℕ, zero, suc, ◌+◌, ◌-◌, ◌*◌, Bool, true, false, Option, none, some, List, [], ◌∷◌, ◌++◌, ltb,
  ◌==◌, nat_eq, length, take, if◌then◌else◌, ℕ_discrete,
}
use log_collector.Base.Int.{ℤ, pos, pos_part, ◌-ℤ◌, ltb_ℤ, wrap64}
use log_collector.Base.Text.{Text, trim_suffix}
use log_collector.Utf8.{runes, encode}

-- `truncateRunes`
unfoldable pub truncate_runes : Text → ℕ → Text
truncate_runes value limit =
    let rs = runes value in encode (if ltb limit (length rs) then take limit rs else rs)

-- How reading a file ends.
pub data ReadError : Type 0 where
  eof unreadable : ReadError

-- What is left to read, and how it ends.
pub record Reader : Type 0 where
  pub rest : Text
  pub failure : ReadError

abbrev pub newline : ℕ
newline = 10

abbrev pub carriage_return : ℕ
carriage_return = 13

-- `ReadSlice('\n')`: a line with its newline and what follows, a full buffer, or the end.
pub data Slice : Type 0 where
  found : Text → Text → Slice
  full : Text → Text → Slice
  ended : Text → Slice

cons_slice : ℕ → Slice → Slice
cons_slice c (found part rest) = found (c ∷ part) rest
cons_slice c (full part rest) = full (c ∷ part) rest
cons_slice c (ended part) = ended (c ∷ part)

unfoldable pub read_slice : ℕ → Text → Slice
unfolding cons_slice
read_slice zero s = full [] s
read_slice (suc room) [] = ended []
read_slice (suc room) (c ∷ s) =
    if c == newline then found (c ∷ []) s else cons_slice c (read_slice room s)

-- The results of `readBoundedLine`, and what the reader has left.
pub record Line : Type 0 where
  pub text : Text
  pub consumed : ℕ
  pub complete : Bool
  pub error : Option ReadError
  pub rest : Text

-- `kept.Write(part[:remaining])`, of nothing where no more is to be kept; `maxSize*4` wraps around.
unfoldable pub keep : ℕ → Text → Text → Text
keep max_size kept part =
    let remaining : ℤ = wrap64 (pos (max_size * 4)) -ℤ pos (length kept) in
    let count : ℤ = if ltb_ℤ remaining (pos (length part)) then remaining else pos (length part) in
    kept ++ take (pos_part count) part

unfoldable pub finish : Text → ℕ → Text
finish kept max_size =
    truncate_runes (trim_suffix (trim_suffix kept (newline ∷ [])) (carriage_return ∷ [])) max_size

-- The loop, with fuel; a full buffer goes on.
unfoldable pub line_loop : ℕ → ℕ → ℕ → ReadError → Text → ℕ → Text → Option Line
line_loop zero size max_size failure kept consumed s = none
line_loop (suc fuel) size max_size failure kept consumed s = elim (read_slice size s) [
  | found part rest ↦ some (record {
    text = finish (keep max_size kept part) max_size;
    consumed = consumed + length part;
    complete = true;
    error = none;
    rest = rest;
  })
  | full part rest ↦
      line_loop fuel size max_size failure (keep max_size kept part) (consumed + length part) rest
  | ended part ↦ some (record {
    text = truncate_runes (keep max_size kept part) max_size;
    consumed = consumed + length part;
    complete = false;
    error = some failure;
    rest = [];
  })
]

-- `readBoundedLine(r, maxSize)` over a buffer of `size` bytes.
unfoldable pub read_bounded_line : ℕ → Reader → ℕ → Option Line
read_bounded_line size r max_size =
    line_loop (suc (suc (length r.rest))) size max_size r.failure [] 0 r.rest
