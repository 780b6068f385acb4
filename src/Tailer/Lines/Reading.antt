-- ===== src/Tailer/Lines/Reading.antt =====
-- internal/tailer/tailer.go, `readBoundedLine` over a buffer of any size.
use log_collector.Base.{
  length-take, ℕ, zero, suc, ◌+◌, ◌-◌, ◌*◌, ◌<◌, ◌≤◌, ◌^◌, if◌then◌else◌, ◌≡◌, refl, ap, sym, ◌∙◌,
  ◌⊎◌, inl, inr, true, false, none, some, [], ◌∷◌, ◌++◌, arith, nat_eq, length, take,
  take_append_take, length-append, append_assoc, Bool-cases, take_all, All-append, All-split, subst,
}
use log_collector.Base.Int.{ℤ, pos, pos_part, ◌-ℤ◌, ltb_ℤ, wrap64, wrap64_id}
use log_collector.Base.Text.{Text}
use log_collector.Tailer.Lines.{
  truncate_runes, ReadError, newline, found, full, ended, read_slice, Line, keep, finish, line_loop,
  read_bounded_line,
}
use log_collector.Tailer.Lines.Laws.{NoNewline, trim_return, finish-take, truncate_runes-take_bytes}

-- A slice of a line that ends: the whole, or a full buffer of it.
abbrev SlicesLine : ℕ → Text → Text → Type 0
SlicesLine size body rest =
    (read_slice size (body ++ newline ∷ rest) ≡ found (body ++ newline ∷ []) rest)
    ⊎ ((p : Text) × (q : Text) × (body ≡ p ++ q)
        × (length p ≡ size)
        × (read_slice size (body ++ newline ∷ rest) ≡ full p (q ++ newline ∷ rest)))

read_slice-line : (size : ℕ) (body rest : Text) → NoNewline body → SlicesLine size body rest
unfolding read_slice
read_slice-line zero body rest h = inr ([], body, refl, refl, refl)
read_slice-line (suc size) [] rest h = inl (ground arith)
read_slice-line (suc size) (c ∷ body) rest (h, k) = elim (read_slice-line size body rest k) [
  | inl e ↦ inl (ground arith)
  | inr (p, q, split, fill, e) ↦ inr (c ∷ p, q, ap (◌∷◌ c) split, ap suc fill, ground arith)
]

-- A slice of text without a newline: all of it, or a full buffer.
abbrev SlicesTail : ℕ → Text → Type 0
SlicesTail size s =
    (read_slice size s ≡ ended s)
    ⊎ ((p : Text) × (q : Text) × (s ≡ p ++ q) × (length p ≡ size) × (read_slice size s ≡ full p q))

read_slice-tail : (size : ℕ) (s : Text) → NoNewline s → SlicesTail size s
unfolding read_slice
read_slice-tail zero s h = inr ([], s, refl, refl, refl)
read_slice-tail (suc size) [] h = inl refl
read_slice-tail (suc size) (c ∷ s) (h, k) = elim (read_slice-tail size s k) [
  | inl e ↦ inl (ground arith)
  | inr (p, q, split, fill, e) ↦ inr (c ∷ p, q, ap (◌∷◌ c) split, ap suc fill, ground arith)
]

difference : (a b : ℕ) → b ≤ a → pos a -ℤ pos b ≡ pos (a - b)
unfolding ◌-ℤ◌
difference a b h = ground arith

-- What is written of a part, where a limit leaves room for it.
fill_up :
    (limit : ℕ) (kept part : Text)
    → length kept ≤ limit
    → let remaining : ℤ = pos limit -ℤ pos (length kept) in
      let count : ℤ =
        if ltb_ℤ remaining (pos (length part)) then remaining else pos (length part) in
      kept ++ take (pos_part count) part ≡ kept ++ take (limit - length kept) part
fill_up limit kept part h =
    let left = limit - length kept in
    rw (difference limit (length kept) h)
      (elim (Bool-cases (ltb_ℤ (pos left) (pos (length part)))) [
        | inl cut ↦ rw cut refl
        | inr fits ↦ rw fits (
            ap (◌++◌ kept) (
              take_all (length part) part (omega arith)
              ∙ sym (take_all left part (ground (arith, fits)))))
      ])

-- What is kept of the parts is the front of what was read.
keep_lem :
    (n : ℕ) (done part : Text)
    → n < 2 ^ 61
    → keep n (take (n * 4) done) part ≡ take (n * 4) (done ++ part)
unfolding keep
keep_lem n done part h =
    let whole : wrap64 (pos (n * 4)) ≡ pos (n * 4) =
      wrap64_id (pos (n * 4)) (omega arith, omega arith) in
    rw whole (fill_up (n * 4) (take (n * 4) done) part (omega (arith, length-take (n * 4) done)))
    ∙ take_append_take (n * 4) done part

module _ (size max_size : ℕ) (failure : ReadError) (positive : 0 < size)
    (small : max_size < 2 ^ 61) where
  -- What a call returns for a line and for the end of the file.
  abbrev line_result : Text → Text → Text → Line
  line_result done body rest = record {
    text = truncate_runes (trim_return (done ++ body)) max_size;
    consumed = length done + suc (length body);
    complete = true;
    error = none;
    rest = rest;
  }

  abbrev tail_result : Text → Text → Line
  tail_result done s = record {
    text = truncate_runes (take (max_size * 4) (done ++ s)) max_size;
    consumed = length done + length s;
    complete = false;
    error = some failure;
    rest = [];
  }

  line_result_same :
      (done body rest p q : Text)
      → body ≡ p ++ q
      → line_result (done ++ p) q rest ≡ line_result done body rest
  line_result_same done body rest p q split =
      let joined : (done ++ p) ++ q ≡ done ++ body =
        append_assoc done p q ∙ ap (◌++◌ done) (sym split) in
      let counted : length (done ++ p) + suc (length q) ≡ length done + suc (length body) =
        omega (arith, length-append done p, length-append p q, ap length split) in
      cc

  tail_result_same :
      (done s p q : Text) → s ≡ p ++ q → tail_result (done ++ p) q ≡ tail_result done s
  tail_result_same done s p q split =
      let joined : (done ++ p) ++ q ≡ done ++ s =
        append_assoc done p q ∙ ap (◌++◌ done) (sym split) in
      let counted : length (done ++ p) + length q ≡ length done + length s =
        omega (arith, length-append done p, length-append p q, ap length split) in
      cc

  line_end :
      (done body : Text)
      → NoNewline done
      → NoNewline body
      → finish (keep max_size (take (max_size * 4) done) (body ++ newline ∷ [])) max_size
        ≡ truncate_runes (trim_return (done ++ body)) max_size
  line_end done body h k =
      ap (λ t. finish t max_size)
        (keep_lem max_size done (body ++ newline ∷ []) small
          ∙ ap (take (max_size * 4)) (sym (append_assoc done body (newline ∷ []))))
      ∙ finish-take (done ++ body) max_size (All-append _ done body h k)

  line_loop-line :
      (fuel : ℕ) (done body rest : Text)
      → NoNewline done
      → NoNewline body
      → length body < fuel
      → line_loop fuel size max_size failure
          (take (max_size * 4) done)
          (length done)
          (body ++ newline ∷ rest)
        ≡ some (line_result done body rest)
  unfolding line_loop
  line_loop-line zero done body rest h k enough = absurd (omega arith)
  line_loop-line (suc fuel) done body rest h k enough = elim (read_slice-line size body rest k) [
    | inl e ↦
        rw (e, line_loop, line_end done body h k, length-append body (newline ∷ []))
          (let counted : length body + 1 ≡ suc (length body) = omega arith in rw counted refl)
    | inr (p, q, split, fill, e) ↦
        let (kp, kq) = All-split _ p q (subst NoNewline split k) in
        rw (e, line_loop, keep_lem max_size done p small, ← length-append done p)
          (line_loop-line fuel (done ++ p) q rest (All-append _ done p h kp) kq
              (omega (arith, ap length split, length-append p q))
            ∙ ap some (line_result_same done body rest p q split))
  ]

  line_loop-tail :
      (fuel : ℕ) (done s : Text)
      → NoNewline s
      → length s < fuel
      → line_loop fuel size max_size failure (take (max_size * 4) done) (length done) s
        ≡ some (tail_result done s)
  unfolding line_loop
  line_loop-tail zero done s k enough = absurd (omega arith)
  line_loop-tail (suc fuel) done s k enough = elim (read_slice-tail size s k) [
    | inl e ↦ rw (e, line_loop, keep_lem max_size done s small) refl
    | inr (p, q, split, fill, e) ↦
        let (kp, kq) = All-split _ p q (subst NoNewline split k) in
        rw (e, line_loop, keep_lem max_size done p small, ← length-append done p)
          (line_loop-tail fuel (done ++ p) q kq (omega (arith, ap length split, length-append p q))
            ∙ ap some (tail_result_same done s p q split))
  ]

take_nil : (n : ℕ) → take {A = ℕ} n [] ≡ []
take_nil zero = refl
take_nil (suc n) = refl

-- Through a buffer of any positive size, and with a limit below 2^61, readBoundedLine reads a
-- line that ends in a newline whole: it consumes all its bytes and the newline, leaves what
-- follows, and returns the line without its line end, cut after max_size runes.
pub read_bounded_line-line :
    (size max_size : ℕ) (failure : ReadError) (body rest : Text)
    → 0 < size
    → max_size < 2 ^ 61
    → NoNewline body
    → read_bounded_line size (record { rest = body ++ newline ∷ rest; failure = failure }) max_size
      ≡ some (record {
        text = truncate_runes (trim_return body) max_size;
        consumed = suc (length body);
        complete = true;
        error = none;
        rest = rest;
      })
unfolding read_bounded_line
read_bounded_line-line size max_size failure body rest positive small h =
    let counted : 0 + suc (length body) ≡ suc (length body) = omega arith in
    let fuel : ℕ = suc (suc (length (body ++ newline ∷ rest))) in
    ap (λ t. line_loop fuel size max_size failure t 0 (body ++ newline ∷ rest))
      (sym (take_nil (max_size * 4)))
    ∙ line_loop-line size max_size failure positive small fuel [] body rest tt h
        (omega (arith, length-append body (newline ∷ rest)))
    ∙ cc

-- Through a buffer of any positive size, and with a limit below 2^61, readBoundedLine reports the
-- end of a file without a newline as no complete line, with the reader's error, consumes all of
-- it, and returns it cut after max_size runes.
pub read_bounded_line-tail :
    (size max_size : ℕ) (failure : ReadError) (s : Text)
    → 0 < size
    → max_size < 2 ^ 61
    → NoNewline s
    → read_bounded_line size (record { rest = s; failure = failure }) max_size
      ≡ some (record {
        text = truncate_runes s max_size;
        consumed = length s;
        complete = false;
        error = some failure;
        rest = [];
      })
unfolding read_bounded_line
read_bounded_line-tail size max_size failure s positive small h =
    let counted : 0 + length s ≡ length s = omega arith in
    let fuel : ℕ = suc (suc (length s)) in
    ap (λ t. line_loop fuel size max_size failure t 0 s) (sym (take_nil (max_size * 4)))
    ∙ line_loop-tail size max_size failure positive small fuel [] s h (omega arith)
    ∙ cc (truncate_runes-take_bytes s max_size)
