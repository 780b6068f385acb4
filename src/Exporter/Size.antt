-- ===== src/Exporter/Size.antt =====
-- internal/exporter/otlphttp.go: `recordSize`. The texts are in memory, so the sum fits an `int64`.
use log_collector.Base.{ℕ, ◌+◌, List, [], ◌∷◌, none, some, length}
use log_collector.Base.Dict.{Dict}
use log_collector.Base.Text.{Text}
use log_collector.Model.{Record}
use log_collector.Tailer.Records.{Attributes}

dict_size : Dict Text → ℕ
dict_size [] = 0
dict_size ((k, v) ∷ d) = length k + length v + 32 + dict_size d

attributes_size : Attributes → ℕ
attributes_size none = 0
attributes_size (some d) = dict_size d

-- `recordSize`
unfoldable pub record_size : Record → ℕ
unfolding dict_size attributes_size
record_size r =
    length r.body
    + length r.trace_id
    + 128
    + attributes_size r.attributes
    + dict_size r.resource_attributes

unfoldable pub total_size : List Record → ℕ
total_size [] = 0
total_size (r ∷ rs) = record_size r + total_size rs
