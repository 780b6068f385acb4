-- ===== src/Exporter/Retry.antt =====
-- internal/exporter/otlphttp.go: `sendWithRetry`, over the attempts that the environment gives: what
-- `send` returns, what `time.Since(start)` is then, and whether the context ends during the wait.
-- `float` stands for the conversion of an `int64` to `float64` and back.
pub mod Laws
use log_collector.Config.{RetryConfig}
use log_collector.Base.{ℕ, Bool, not, ◌&&◌, ◌||◌, List, [], ◌∷◌, ◌==◌, nat_eq, ltb, if◌then◌else◌}
use log_collector.Base.Int.{ℤ, pos, ◌+ℤ◌, ltb_ℤ, leb_ℤ, wrap64}

pub data SendResult : Type 0 where
  delivered : SendResult
  status_error : ℕ → ℤ → SendResult
  other_error : SendResult

pub record Attempt : Type 0 where
  pub result : SendResult
  pub elapsed : ℤ
  pub cancelled : Bool

-- How the call ends; `trying` means that the attempts given are used up.
pub data Verdict : Type 0 where
  success gave_up context_ended trying : Verdict

pub data Decision : Type 0 where
  stop : Verdict → Decision
  wait : ℤ → Decision

unfoldable pub is_permanent : ℕ → Bool
is_permanent status = not (status == 408) && not (status == 429) && ltb status 500

unfoldable pub is_exhausted : RetryConfig → ℤ → ℤ → Bool
is_exhausted cfg elapsed delay =
    not cfg.enabled
    || (ltb_ℤ (pos 0) cfg.max_elapsed && ltb_ℤ cfg.max_elapsed (wrap64 (elapsed +ℤ delay)))

-- The second half of an iteration, up to the new delay.
unfoldable pub pause : RetryConfig → Attempt → ℤ → Decision
pause cfg a delay =
    if is_exhausted cfg a.elapsed delay
    then stop gave_up
    else if a.cancelled
    then stop context_ended
    else wait delay

-- One iteration.
unfoldable pub decide : RetryConfig → Attempt → ℤ → Decision
decide cfg a delay = elim a.result [
  | delivered ↦ stop success
  | status_error status retry_after ↦
      if is_permanent status
      then stop gave_up
      else pause cfg a (if ltb_ℤ delay retry_after then retry_after else delay)
  | other_error ↦ pause cfg a delay
]

unfoldable pub next_delay : (ℤ → ℤ) → RetryConfig → ℤ → ℤ
next_delay float cfg delay =
    let limit = if leb_ℤ cfg.max_interval (pos 0) then pos 30_000_000_000 else cfg.max_interval in
    let twice = wrap64 (delay +ℤ delay) in
    if ltb_ℤ (float limit) (float twice) then float limit else float twice

-- The loop: its end, and the waits before it.
unfoldable pub retry_loop : (ℤ → ℤ) → RetryConfig → List Attempt → ℤ → Verdict × List ℤ
retry_loop float cfg [] delay = (trying, [])
retry_loop float cfg (a ∷ attempts) delay = elim (decide cfg a delay) [
  | stop v ↦ (v, [])
  | wait d ↦
      let (v, waits) = retry_loop float cfg attempts (next_delay float cfg d) in (v, d ∷ waits)
]

-- `sendWithRetry`
unfoldable pub send_with_retry : (ℤ → ℤ) → RetryConfig → List Attempt → Verdict × List ℤ
unfolding retry_loop
send_with_retry float cfg attempts =
    retry_loop float cfg attempts
      (if leb_ℤ cfg.initial (pos 0) then pos 1_000_000_000 else cfg.initial)
