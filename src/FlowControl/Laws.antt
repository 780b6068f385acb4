-- ===== src/FlowControl/Laws.antt =====
-- internal/flowcontrol/limiter.go, `Submit` and `recordDrop` over sequences of calls.
use log_collector.Base.{
  ℕ, ◌+◌, ◌%◌, ◌^◌, ◌<◌, ◌≡◌, refl, ap, sym, ◌∙◌, inl, inr, Bool, true, false, List, [], ◌∷◌, ◌++◌,
  arith, Bool-cases, append-nil, append_assoc, ≡→==, subst, if◌then◌else◌, length, text_eq,
}
use log_collector.Base.Int.{◌-ℤ◌, ltb_ℤ}
use log_collector.Base.Text.{bytes}
use log_collector.Model.{Record, Time}
use log_collector.Config.{FlowControlConfig}
use log_collector.FlowControl.{Limiter, Outcome, accepted, forward, record_drop, submit}

-- One call: whether there is a token, the time, and the record.
pub record Call : Type 0 where
  pub token : Bool
  pub now : Time
  pub log : Record

abbrev pub total : List ℕ → ℕ
total [] = 0
total (n ∷ ns) = n + total ns

total-append : (ns : List ℕ) (n : ℕ) → total (ns ++ n ∷ []) ≡ total ns + n
total-append [] n = omega arith
total-append (m ∷ ns) n = omega (arith, total-append ns n)

-- A receiver that keeps what it is given.
abbrev pub keep_all : Record → List Record → Outcome × List Record
keep_all r rs = (accepted, rs ++ r ∷ [])

unfoldable pub submit_all :
    FlowControlConfig → List Call → Limiter → List Record → Limiter × List Record
submit_all cfg [] l rs = (l, rs)
submit_all cfg (c ∷ cs) l rs =
    let (o, l', rs') = submit cfg keep_all c.token c.now c.log l rs in submit_all cfg cs l' rs'

-- The calls without a token, and the records of the others.
abbrev pub refused : List Call → ℕ
refused [] = 0
refused (c ∷ cs) = if c.token then refused cs else refused cs + 1

abbrev pub admitted : List Call → List Record
admitted [] = []
admitted (c ∷ cs) = if c.token then c.log ∷ admitted cs else admitted cs

-- The sum of what a limiter has reported and what it has not reported yet.
abbrev pub lost : Limiter → ℕ
lost l = total l.reports + l.dropped

-- A drop adds one to what is reported or counted.
record_drop-lost :
    (cfg : FlowControlConfig) (now : Time) (l : Limiter)
    → l.dropped + 1 < 2 ^ 64
    → lost (record_drop cfg now l) ≡ lost l + 1
unfolding record_drop
record_drop-lost cfg now l h =
    elim (Bool-cases (ltb_ℤ (now -ℤ l.last_report) cfg.report_interval)) [
      | inl early ↦ rw early (omega arith)
      | inr late ↦ rw late (omega (arith, total-append l.reports ((l.dropped + 1) % 2 ^ 64)))
    ]

module _ (cfg : FlowControlConfig) (on : cfg.enabled ≡ true) (drops : cfg.mode ≡ bytes "drop") where
  submit-token :
      (now : Time) (r : Record) (l : Limiter) (rs : List Record)
      → submit cfg keep_all true now r l rs ≡ (accepted, l, rs ++ r ∷ [])
  unfolding submit forward
  submit-token now r l rs = rw (on, ≡→== drops) refl

  submit-none :
      (now : Time) (r : Record) (l : Limiter) (rs : List Record)
      → submit cfg keep_all false now r l rs ≡ (accepted, record_drop cfg now l, rs)
  unfolding submit
  submit-none now r l rs = rw (on, ≡→== drops) refl

  -- The records handed on, and the drops.
  IsAccounted : List Call → Limiter → List Record → Limiter × List Record → Type 0
  IsAccounted cs l rs (l', rs') = (lost l' ≡ lost l + refused cs) × (rs' ≡ rs ++ admitted cs)

  Accounts : List Call → Type 0
  Accounts cs =
      (l : Limiter) (rs : List Record)
      → lost l + length cs < 2 ^ 64
      → IsAccounted cs l rs (submit_all cfg cs l rs)

  cons-Accounts :
      (token : Bool) (now : Time) (r : Record) (cs : List Call)
      → Accounts cs
      → Accounts (record { token = token; now = now; log = r } ∷ cs)
  unfolding submit_all IsAccounted Accounts
  cons-Accounts true now r cs later l rs h =
      let (count, kept) = later l (rs ++ r ∷ []) (omega (arith, h)) in
      subst (IsAccounted (record { token = true; now = now; log = r } ∷ cs) l rs)
        (sym (ap (λ x. submit_all cfg cs x.1 x.2) (submit-token now r l rs)))
        (count, kept ∙ append_assoc rs (r ∷ []) (admitted cs))
  cons-Accounts false now r cs later l rs h =
      let more = record_drop-lost cfg now l (omega (arith, h)) in
      let (count, kept) = later (record_drop cfg now l) rs (omega (arith, h, more)) in
      subst (IsAccounted (record { token = false; now = now; log = r } ∷ cs) l rs)
        (sym (ap (λ x. submit_all cfg cs x.1 x.2) (submit-none now r l rs)))
        (omega (arith, count, more), kept)

  submit_all-Accounts : (cs : List Call) → Accounts cs
  unfolding submit_all IsAccounted Accounts
  submit_all-Accounts [] l rs h = (omega arith, sym (append-nil rs))
  submit_all-Accounts (c ∷ cs) l rs h =
      cons-Accounts c.token c.now c.log cs (submit_all-Accounts cs) l rs h

-- In drop mode, the receiver gets exactly the records of the calls that find a token, in order,
-- and the other calls are counted, each once, in a report or in the count that is not reported
-- yet, as long as they are fewer than 2^64.
pub submit_all-lost :
    (cfg : FlowControlConfig) (cs : List Call) (l : Limiter) (rs : List Record)
    → cfg.enabled ≡ true
    → cfg.mode ≡ bytes "drop"
    → lost l + length cs < 2 ^ 64
    → (lost (submit_all cfg cs l rs).0 ≡ lost l + refused cs)
      × ((submit_all cfg cs l rs).1 ≡ rs ++ admitted cs)
unfolding IsAccounted Accounts
submit_all-lost cfg cs l rs on drops few = submit_all-Accounts cfg on drops cs l rs few
