-- ===== src/Engine/Lifecycle.antt =====
-- `EngineLifecycle` of crates/manager-core/src/lifecycle.rs.
pub mod Sticky
pub mod Trace
use openfortivpn.Base.{
  ℕ, ◌≡◌, refl, Bool, true, false, Option, none, some, ltb, leb, if◌then◌else◌, ◌==◌, ◌&&◌, ◌||◌,
  not, is_some_and, arith, any, List, [], ◌∷◌, nat_equality,
}
use openfortivpn.Base.Error.{Result, ok, err, invalid_input}
use openfortivpn.Base.Text.{Str, lit, str_equality}
use openfortivpn.Engine.Cursor.{EventCursor, new_cursor, accept}

-- What the code reads of an event, a JSON value: each field is what `as_str`, `as_u64` or `as_bool`
-- answers for that key.
pub record Event : Type 0 where
  pub attempt_id : Option Str
  pub protocol_version : Option ℕ
  pub seq : Option ℕ
  pub name : Option Str  -- the key `event`
  pub state : Option Str
  pub success : Option Bool
  pub retryable : Option Bool
  pub category : Option Str

pub record EngineLifecycle : Type 0 where
  pub cursor : EventCursor
  pub protocol_v2 : Bool
  pub network_pending : Bool
  pub cleanup_failed : Bool
  pub permanent_failure : Bool
  pub attempt_id : Option Str
  pub require_identity : Bool

-- `EngineLifecycle::default`
abbrev pub default_lifecycle : EngineLifecycle
default_lifecycle = record {
  cursor = new_cursor;
  protocol_v2 = false;
  network_pending = false;
  cleanup_failed = false;
  permanent_failure = false;
  attempt_id = none;
  require_identity = false;
}

unfoldable pub for_attempt : Str → Bool → EngineLifecycle
for_attempt attempt require_identity = record default_lifecycle {
  attempt_id = some attempt;
  require_identity = require_identity;
}

unfoldable pub require_recovery : EngineLifecycle → EngineLifecycle
require_recovery l = record l { cleanup_failed = true; permanent_failure = true }

abbrev unwrap_or {ℓ} : {A : Type ℓ} → A → Option A → A
unwrap_or d none = d
unwrap_or d (some a) = a

-- `event["protocolVersion"].as_u64().unwrap_or(1)`
abbrev pub protocol_of : Event → ℕ
protocol_of e = unwrap_or 1 e.protocol_version

-- The event belongs to another attempt.
unfoldable pub is_foreign : EngineLifecycle → Event → Bool
is_foreign l e = is_some_and l.attempt_id (λ expected.
    is_some_and e.attempt_id (λ id. not (id == expected))
    || (l.require_identity && not (is_some_and e.attempt_id (λ id. id == expected))))

-- The state of the engine in which the network may have been changed.
unfoldable pub is_network_phase : Str → Bool
is_network_phase phase =
    phase == lit "configuring"
    || phase == lit "creating_adapter"
    || phase == lit "tunneling"
    || phase == lit "negotiating"
    || phase == lit "connected"

unfoldable pub touches_network : Event → Bool
touches_network e =
    unwrap_or [] e.name == lit "tunnel_up" || is_network_phase (unwrap_or [] e.state)

unfoldable pub is_cleanup : Event → Bool
is_cleanup e = unwrap_or [] e.name == lit "cleanup_result"

abbrev pub is_true : Option Bool → Bool
is_true (some true) = true
is_true _ = false

abbrev pub is_false : Option Bool → Bool
is_false (some false) = true
is_false _ = false

unfoldable pub is_permanent : Event → Bool
is_permanent e =
    unwrap_or [] e.name == lit "cert_error"
    || (unwrap_or [] e.name == lit "error"
        && (is_false e.retryable || is_some_and e.category (λ c. c == lit "auth")))

abbrev mark_network : Event → EngineLifecycle → EngineLifecycle
mark_network e l = if touches_network e then record l { network_pending = true } else l

abbrev mark_cleanup : Event → EngineLifecycle → EngineLifecycle
mark_cleanup e l =
    let failing = l.cleanup_failed || not (is_true e.success) in
    if is_cleanup e then record l { cleanup_failed = failing; network_pending = failing } else l

abbrev mark_permanent : Event → EngineLifecycle → EngineLifecycle
mark_permanent e l = record l { permanent_failure = l.permanent_failure || is_permanent e }

-- The part of `observe` after the cursor has accepted the event.
unfoldable pub record_event : Event → EngineLifecycle → EngineLifecycle
record_event e l = mark_permanent e (
    mark_cleanup e
      (mark_network e (record l { protocol_v2 = l.protocol_v2 || protocol_of e == 2 })))

abbrev after_cursor :
    Event → EngineLifecycle → Result Bool × EventCursor → Result Bool × EngineLifecycle
after_cursor e l (ok false, c) = (ok false, record l { cursor = c })
after_cursor e l (ok true, c) = (ok true, record_event e (record l { cursor = c }))
after_cursor e l (err x, c) = (err x, require_recovery (record l { cursor = c }))

-- `EngineLifecycle::observe`
unfoldable pub observe : EngineLifecycle → Event → Result Bool × EngineLifecycle
observe l e =
    if is_foreign l e
    then (err invalid_input, require_recovery l)
    else if l.require_identity && not (protocol_of e == 2)
    then (err invalid_input, require_recovery l)
    else after_cursor e l (accept l.cursor (protocol_of e) e.seq)

-- `EngineLifecycle::reaped`
unfoldable pub reaped : EngineLifecycle → Bool → Bool → Bool × EngineLifecycle
unfolding require_recovery
reaped l output_complete forced =
    let l' =
      if not output_complete || forced || (l.protocol_v2 && l.network_pending)
      then require_recovery l
      else l in
    (not l'.cleanup_failed, l')

unfoldable pub retry_blocked : EngineLifecycle → Bool
retry_blocked l = l.permanent_failure || l.cleanup_failed

unfoldable pub accepts_legacy_readiness : EngineLifecycle → Bool
unfolding retry_blocked
accepts_legacy_readiness l = not l.require_identity && not l.protocol_v2 && not (retry_blocked l)

-- `EngineLifecycle::acknowledge_recovery`
unfoldable pub acknowledge_recovery : EngineLifecycle → EngineLifecycle
acknowledge_recovery l = record l { cleanup_failed = false; network_pending = false }
