-- ===== src/FlowControl.antt =====
-- internal/flowcontrol/limiter.go: `Submit` and `recordDrop`, over any receiver of records with a
-- state of its own. The token bucket of x/time/rate is the environment's: whether a call finds a
-- token (`Allow`), or waits for one without being cancelled (`Wait`).
pub mod Laws
use log_collector.Base.{
  ℕ, ◌+◌, ◌%◌, ◌^◌, Bool, true, false, not, List, [], ◌∷◌, ◌++◌, ◌==◌, text_eq, if◌then◌else◌,
}
use log_collector.Base.Int.{ℤ, ◌-ℤ◌, ltb_ℤ}
use log_collector.Base.Text.{Text, bytes}
use log_collector.Config.{FlowControlConfig}
use log_collector.Model.{Record, Time}

-- `Limiter`, with the counts that it has logged, oldest first.
pub record Limiter : Type 0 where
  pub dropped : ℕ
  pub last_report : Time
  pub reports : List ℕ

-- The error of a call, or none.
pub data Outcome : Type 0 where
  accepted cancelled rejected : Outcome

-- `recordDrop`; the count is a `uint64`.
unfoldable pub record_drop : FlowControlConfig → Time → Limiter → Limiter
record_drop cfg now l =
    let dropped = (l.dropped + 1) % 2 ^ 64 in
    if ltb_ℤ (now -ℤ l.last_report) cfg.report_interval
    then record l { dropped = dropped }
    else record { dropped = 0; last_report = now; reports = l.reports ++ dropped ∷ [] }

-- The call of `l.next`.
unfoldable pub forward {ℓ} :
    {S : Type ℓ} → (Record → S → Outcome × S) → Record → Limiter → S → Outcome × Limiter × S
forward next r l s = let (o, s') = next r s in (o, l, s')

-- `Submit`
unfoldable pub submit {ℓ} :
    {S : Type ℓ}
    → FlowControlConfig
    → (Record → S → Outcome × S)
    → Bool
    → Time
    → Record
    → Limiter
    → S
    → Outcome × Limiter × S
unfolding forward record_drop bytes
submit cfg next token now r l s =
    if not cfg.enabled
    then forward next r l s
    else if cfg.mode == bytes "drop"
    then if not token then (accepted, record_drop cfg now l, s) else forward next r l s
    else if not token
    then (cancelled, l, s)
    else forward next r l s
