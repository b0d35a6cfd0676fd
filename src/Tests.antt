-- ===== src/Tests.antt =====
-- The theorems at concrete inputs.
mod Network
mod Engine
mod Connect
mod Profile
mod Auth
mod Logs
mod Handshake
mod Authority
mod Process
mod Broker
mod Store
mod SupplementalDns
mod Recovery
mod DnsPolicy
