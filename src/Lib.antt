-- ===== src/Lib.antt =====
-- The manager core of openfortivpn, the Rust crate crates/manager-core. A manager supervises VPN
-- engine processes and the network changes they make, stores profiles and credentials, relays
-- authentication challenges and keeps logs. Adapters (headless/, app/src-tauri/,
-- crates/manager-http/) own processes, sockets and files and call the core, which decides.
--
-- How the parts interact: an adapter asks `admit` (Connect) whether a profile may connect, starts an
-- engine, feeds its output through `LineDecoder` (Logs/Lines) and its events through
-- `EngineLifecycle::observe` (Engine/Lifecycle), has the `Coordinator` (Network) prepare, apply and
-- release routes and DNS settings for the attempt, answers its challenges (Auth), and asks the
-- `RetryTimer` (Engine/Retry) when to try again. Profiles are saved by the service (Profile).
--
-- Which file models which part; the operations keep their names:
-- Base: numbers, lists, texts (lists of Unicode code points), `BTreeMap` as an association list in
-- the order of its keys, and results with the `ErrorCode` of crates/manager-core/src/lib.rs.
-- Network: crates/manager-core/src/network.rs. Model holds the data, Cidr and Conflict compare
-- routes and DNS settings, Validate is `Plan::validate`, Monad holds the traits `Backend` and
-- `Journal`, and Leases, Journaled, Prepare, Apply, Release and Rollback are the operations of
-- `Coordinator`. Plans, Isolation, Closed, Keeps and Reachable serve the proofs. Store is the journal
-- file and the locked store of the same source; Store/Manager is a manager over its runs, which opens
-- the store, serves requests, dies, and opens the store again. Handshake is network_control.rs, in
-- which an engine names its resources; Authority is network_authority.rs, the reservation of the machine's network;
-- DnsPolicy is network_windows_dns_policy.rs, and SupplementalDns, with its Calls, is the backend of
-- network_macos.rs.
-- Engine: crates/manager-core/src/lifecycle.rs and the cursor of protocol.rs.
-- Connect: crates/manager-core/src/connection_service.rs.
-- Profile: domain.rs, validation.rs, repository.rs, profile_service.rs and credential_journal.rs
-- (Journal holds its intents, Recovery its operations), all in crates/manager-core/src.
-- Auth: control.rs, saml.rs and saml_broker.rs (Broker) in crates/manager-core/src.
-- Process: supervisor.rs (Reaper), json_buffer.rs (Buffers) and actor.rs (Mailboxes).
-- Logs: protocol.rs, log_buffer.rs and retention.rs in crates/manager-core/src.
-- Tests: the theorems at concrete inputs.
--
-- How the state corresponds: a `&mut self` method takes the state and returns it with the result,
-- also after an error. The traits of the core (`Backend`, `Journal`, `ProfileRepository`,
-- `ReferenceBackend`) are records of functions on an abstract state of the world, and each of their
-- calls may fail. Of a `ControlError` the code is kept and the message is not. An address is its
-- number, and the mask of a prefix is a division by a power of two. A JSON event is what `as_str`,
-- `as_u64` and `as_bool` answer for the keys that are read. `overlaps` panics where a prefix does
-- not parse; it answers true there, and `overlaps_panics` tells those inputs. A creator without a
-- fingerprint, whose `unwrap` would panic, is answered by an error.
--
-- Files, locks and the clock: the calls on a directory are a record of actions on an abstract state
-- (`Directory`, `StoreDirectory`, `IntentStore`), and what their callers rely on is a named record of
-- laws. A round of the callback listener, and the inspections of a child process, are given by the
-- number of the round.
--
-- Bounds and fuel: loops are structural. The loop of `apply` runs one round for each entry of the
-- lease, as many as it has. The listener serves 32 rounds, as the code does. Reading a request has
-- fuel for 8193 reads, since every read but the last adds a byte and 8192 bytes end the loop. The
-- reaper loops until a child has exited; its fuel is the number of inspections, and one more than
-- the failing ones is enough. Saturating and checked additions keep the bounds of `u64`.
--
-- Third-party code is a parameter: base64, the UTF-8 decoder, the JSON library, SHA-256, random
-- numbers, the size of a structure, whether a peer is on the loopback, and the dynamic store of
-- macOS.
--
-- Not modelled: the file system itself, sockets, threads and child processes, the system calls of
-- the platform backends, the HTTP API, the adapters and the engine in C.
pub mod Base
pub mod Network
pub mod Engine
pub mod Connect
pub mod Profile
pub mod Auth
pub mod Logs
pub mod Process
pub mod Tests
