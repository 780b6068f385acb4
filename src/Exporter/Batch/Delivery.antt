-- ===== src/Exporter/Batch/Delivery.antt =====
-- internal/exporter/otlphttp.go, `Run`: what is sent when it ends.
use log_collector.Base.{◌^◌, ◌<◌, ◌≡◌, ap, sym, ◌∙◌, List, ◌++◌, All, append-nil}
use log_collector.Model.{Record}
use log_collector.Exporter.Size.{record_size}
use log_collector.Exporter.Batch.{BatchConfig, Context, Outcome, running, failed, Event, run}
use log_collector.Exporter.Batch.Laws.{IsLegal, flat, arrivals, IsGood, IsFlushed}
use log_collector.Exporter.Batch.Steps.{run-IsGood}

-- The outcome of a run that `rs` arrive at: every batch that was sent is legal; when `Run` returns
-- nil, these batches carry exactly `rs`, in order; when it returns an error, they and the batch
-- held carry all of `rs` up to some point.
pub Delivers : BatchConfig → List Record → Outcome → Type 0
Delivers cfg rs (running s) = All (IsLegal cfg) s.sent × (flat s.sent ≡ rs)
Delivers cfg rs (failed s) =
    All (IsLegal cfg) s.sent × ((lost : List Record) × ((flat s.sent ++ s.batch) ++ lost ≡ rs))

good-Delivers :
    (cfg : BatchConfig) (rs : List Record) (o : Outcome)
    → IsGood IsFlushed cfg rs o
    → Delivers cfg rs o
unfolding IsGood Delivers
good-Delivers cfg rs (running s) (p, x, e) =
    (x.legal, sym (append-nil (flat s.sent)) ∙ sym (ap (λ b. flat s.sent ++ b) p) ∙ e)
good-Delivers cfg rs (failed s) (x, l) = (x.legal, l)

-- For every sequence of records and ticks, every content of the channel at shutdown and every
-- success or failure of the sends: each batch sent has between one and batch_size records and at
-- most max_batch_bytes bytes unless it is a single record; if Run ends without error, the batches
-- sent are all records received, in order and once each; if it ends with an error, the batches
-- sent and the batch held are the records received up to some point. batch_size is positive;
-- max_batch_bytes and each record size are below 2^62.
pub run-Delivers :
    (cfg : BatchConfig) (send shutdown : Context) (es : List Event) (rs : List Record)
    → 0 < cfg.batch_size
    → cfg.max_batch_bytes < 2 ^ 62
    → All (λ r. record_size r < 2 ^ 62) (arrivals es ++ rs)
    → Delivers cfg (arrivals es ++ rs) (run cfg send shutdown es rs)
run-Delivers cfg send shutdown es rs room bound small =
    good-Delivers cfg (arrivals es ++ rs) (run cfg send shutdown es rs)
      (run-IsGood cfg room bound send shutdown es rs small)
