-- ===== src/Engine.antt =====
-- The supervision rules of one engine process: crates/manager-core/src/lifecycle.rs and the event
-- cursor of crates/manager-core/src/protocol.rs.
pub mod Cursor
pub mod Lifecycle
pub mod Retry
