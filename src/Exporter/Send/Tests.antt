-- ===== src/Exporter/Send/Tests.antt =====
-- A reply that rejects some records, at a concrete input: the whole batch is sent again.
use log_collector.Base.{◌≡◌, refl, true, false, []}
use log_collector.Base.Int.{pos}
use log_collector.Config.{RetryConfig}
use log_collector.Exporter.Retry.{decide, wait, pause, is_exhausted}
use log_collector.Exporter.Send.{Reply, replied, rejects, attempt}

abbrev retries : RetryConfig
retries = record { enabled = true; initial = pos 1; max_interval = pos 8; max_elapsed = pos 0 }

abbrev one_rejected : Reply
one_rejected = replied 200 [] (rejects (pos 1))

one_rejected_test :
    decide retries (attempt (λ s. pos 0) one_rejected (pos 3) false) (pos 2) ≡ wait (pos 2)
unfolding decide attempt pause is_exhausted
one_rejected_test = refl
