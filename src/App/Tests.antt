-- ===== src/App/Tests.antt =====
-- The theorems on flow control and the outputs at concrete inputs.
use log_collector.Base.{◌+◌, ◌≡◌, refl, true, false, none, List, [], ◌∷◌, ◌++◌, text_eq, arith}
use log_collector.Base.Int.{pos}
use log_collector.Base.Text.{bytes}
use log_collector.Model.{Record, zero_time}
use log_collector.Config.{FlowControlConfig}
use log_collector.FlowControl.{Limiter}
use log_collector.FlowControl.Laws.{Call, lost, refused, admitted, submit_all, submit_all-lost}

abbrev dropping : FlowControlConfig
dropping = record {
  enabled = true;
  rate_per_second = record { bits = 0x3f50624dd2f1a9fc };
  burst = pos 1;
  mode = bytes "drop";
  report_interval = pos 10;
}

abbrev blocking : FlowControlConfig
blocking = record {
  enabled = true;
  rate_per_second = record { bits = 0x3f50624dd2f1a9fc };
  burst = pos 1;
  mode = bytes "block";
  report_interval = pos 10;
}

abbrev line : Record
line = record {
  body = b'a' ∷ [];
  timestamp = zero_time;
  observed_timestamp = zero_time;
  severity_text = [];
  severity_number = 0;
  dropped = false;
  trace_id = [];
  attributes = none;
  resource_attributes = [];
  resource_key = [];
}

abbrev limiter : Limiter
limiter = record { dropped = 0; last_report = pos 0; reports = [] }

abbrev calls : List Call
calls =
    record { token = true; now = pos 1; log = line }
    ∷ record { token = false; now = pos 2; log = line }
    ∷ record { token = false; now = pos 20; log = line }
    ∷ []

submit_all-lost_example :
    (lost (submit_all dropping calls limiter []).0 ≡ lost limiter + refused calls)
    × ((submit_all dropping calls limiter []).1 ≡ [] ++ admitted calls)
submit_all-lost_example = submit_all-lost dropping calls limiter [] refl refl (omega arith)
