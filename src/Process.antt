-- ===== src/Process.antt =====
-- Processes, response buffers and command mailboxes of crates/manager-core: supervisor.rs,
-- json_buffer.rs and actor.rs.
pub mod Reaper
pub mod Buffers
pub mod Mailboxes
