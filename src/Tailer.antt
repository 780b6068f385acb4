-- ===== src/Tailer.antt =====
-- internal/tailer/tailer.go
pub mod Lines
pub mod Severity
pub mod TraceId
pub mod Cri
pub mod Records
pub mod Accept
pub mod Flush
pub mod Read
pub mod Tests
