-- ===== src/App.antt =====
-- internal/app/app.go: `submitRecord`, which stands behind the flow control, over the state of the
-- two outputs. An output says whether it returned nil; the warnings are left out.
pub mod Reload
pub mod Tests
use log_collector.Base.{
  ◌≡◌, refl, ◌⊎◌, inl, inr, Bool, true, false, Option, none, some, ◌==◌, text_eq, Bool-cases,
}
use log_collector.Base.Text.{bytes}
use log_collector.Model.{Record, Time}
use log_collector.Config.{FlowControlConfig}
use log_collector.FlowControl.{Limiter, Outcome, accepted, cancelled, forward, submit}

-- `recordSubmitter`; none is nil.
abbrev pub Submitter {ℓ} : Type ℓ → Type ℓ
Submitter S = Option (Record → S → Bool × S)

unfoldable pub call {ℓ} : {S : Type ℓ} → Submitter S → Record → S → S
call none r s = s
call (some send) r s = (send r s).1

-- `submitRecord`
unfoldable pub submit_record {ℓ} :
    {S : Type ℓ} → Submitter S → Submitter S → Record → S → Outcome × S
unfolding call
submit_record send_webhook send_export r s = (accepted, call send_export r (call send_webhook r s))
