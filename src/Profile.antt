-- ===== src/Profile.antt =====
-- The profile catalog: crates/manager-core/src/domain.rs, validation.rs, repository.rs and
-- profile_service.rs.
pub mod Model
pub mod Validation
pub mod Archive
pub mod Codec
pub mod Service
pub mod Restore
pub mod Revisions
pub mod Gc
pub mod Journal
pub mod References
pub mod Recovery
