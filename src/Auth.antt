-- ===== src/Auth.antt =====
-- Authentication: crates/manager-core/src/control.rs and saml.rs.
pub mod Frame
pub mod Challenges
pub mod Saml
pub mod Broker
