-- ===== src/Exporter.antt =====
-- internal/exporter/otlphttp.go: the queue in front of the exporter, its batches, the retries of a
-- batch and the request that a batch becomes.
pub mod Size
pub mod Queue
pub mod Batch
pub mod Request
pub mod Retry
pub mod Send
pub mod Tests
