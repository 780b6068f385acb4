-- ===== src/Exporter/Send/Laws.antt =====
-- internal/exporter/otlphttp.go, `send` and `sendWithRetry`: which replies end a call.
use log_collector.Base.{◌≤◌, ◌<◌, ◌≡◌, ◌≢◌, ◌⊎◌, nat_eq}
use log_collector.Base.Int.{ℤ, pos, ◌≤ℤ◌}
use log_collector.Base.Text.{Text}
use log_collector.Config.{RetryConfig}
use log_collector.Exporter.Retry.{Attempt, Decision, stop, success, gave_up}
use log_collector.Exporter.Retry.Laws.{IsPause}
use log_collector.Exporter.Send.{
  Body, unreadable, empty, undecodable, rejects, Reply, failed, replied,
}

-- No record is rejected.
abbrev pub IsWhole : Body → Type 0
IsWhole unreadable = ⊥
IsWhole empty = Unit
IsWhole undecodable = ⊥
IsWhole (rejects n) = n ≤ℤ pos 0

-- A status of success and no record rejected.
abbrev pub IsAccepted : Reply → Type 0
IsAccepted failed = ⊥
IsAccepted (replied status header body) = (200 ≤ status) × (status < 300) × IsWhole body

-- A status that says the request itself is wrong.
abbrev pub IsRefused : Reply → Type 0
IsRefused failed = ⊥
IsRefused (replied status header body) =
    ((status < 200) ⊎ ((300 ≤ status) × (status < 500))) × (status ≢ 408) × (status ≢ 429)

-- Neither: a delay, which a reply can make longer, and what it leads to.
abbrev pub IsPaused : RetryConfig → Attempt → ℤ → Decision → Type 0
IsPaused cfg a delay d = (later : ℤ) × (delay ≤ℤ later) × IsPause cfg a later d

-- What one attempt leads to.
abbrev pub IsVerdict : RetryConfig → Attempt → ℤ → Reply → Decision → Type 0
IsVerdict cfg a delay reply d =
    (IsAccepted reply × (d ≡ stop success))
    ⊎ (IsRefused reply × (d ≡ stop gave_up))
    ⊎ ((¬ IsAccepted reply) × (¬ IsRefused reply) × IsPaused cfg a delay d)
