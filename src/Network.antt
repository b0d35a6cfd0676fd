-- ===== src/Network.antt =====
-- crates/manager-core/src/network.rs: network leases and recoverable transactions.
pub mod Model
pub mod Cidr
pub mod Conflict
pub mod Validate
pub mod Monad
pub mod Leases
pub mod Journaled
pub mod Prepare
pub mod Apply
pub mod Release
pub mod Rollback
pub mod Keeps
pub mod Closed
pub mod Plans
pub mod Isolation
pub mod Reachable
pub mod Epoch
pub mod Handshake
pub mod Store
pub mod DnsPolicy
pub mod SupplementalDns
pub mod Authority
