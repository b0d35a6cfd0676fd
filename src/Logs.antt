-- ===== src/Logs.antt =====
-- Logs: crates/manager-core/src/protocol.rs (lines and redaction), log_buffer.rs and retention.rs.
pub mod Lines
pub mod Buffer
pub mod Retention
