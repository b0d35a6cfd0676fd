-- ===== src/Engine/Lifecycle/Sticky.antt =====
-- Failures that stick, and what an accepted event proves.
use openfortivpn.Base.{arith, ◌≡◌, true, Bool, List, ◌∷◌, some, [], is_some, Option-cases, inl, inr}
use openfortivpn.Base.Error.{err, ErrorCode, ok}
use openfortivpn.Engine.Lifecycle.{
  record_event, observe, Event, require_recovery, EngineLifecycle, is_foreign, reaped,
  retry_blocked, acknowledge_recovery, protocol_of,
}
use openfortivpn.Engine.Cursor.{accept}
use openfortivpn.Base.Text.{Str, str_beq_iff}

-- What `record_event` keeps.
record_event_sticky :
    (e : Event) (l : EngineLifecycle)
    → (l.cleanup_failed ≡ true → (record_event e l).cleanup_failed ≡ true)
      × (l.permanent_failure ≡ true → (record_event e l).permanent_failure ≡ true)
unfolding record_event
record_event_sticky e l = ground arith

-- A refused event demands recovery and blocks retries: every error of observe sets both flags.
pub observe_error :
    (l : EngineLifecycle) (e : Event) (x : ErrorCode)
    → (observe l e).0 ≡ err x
    → ((observe l e).1.cleanup_failed ≡ true) × ((observe l e).1.permanent_failure ≡ true)
unfolding observe require_recovery
observe_error l e x h = ground arith

-- An accepted event of a private attempt carries the attempt's own identity, protocol version 2 and
-- a sequence number.
pub observe_identity :
    (l : EngineLifecycle) (e : Event) (expected : Str)
    → l.attempt_id ≡ some expected
    → l.require_identity ≡ true
    → (observe l e).0 ≡ ok true
    → (e.attempt_id ≡ some expected) × (protocol_of e ≡ 2) × (is_some e.seq ≡ true)
unfolding observe is_foreign accept
observe_identity l e expected ha hr h = elim (Option-cases e.attempt_id) [
  | inl missing ↦ absurd (ground arith)
  | inr (id, given) ↦ ground (arith, str_beq_iff id expected)
]

-- What a run of a process hands to its lifecycle.
pub data Input : Type 0 where
  event : Event → Input
  reap : Bool → Bool → Input
  acknowledge : Input

pub step : EngineLifecycle → Input → EngineLifecycle
step l (event e) = (observe l e).1
step l (reap output_complete forced) = (reaped l output_complete forced).1
step l acknowledge = acknowledge_recovery l

pub run : EngineLifecycle → List Input → EngineLifecycle
run l [] = l
run l (i ∷ is) = run (step l i) is

observe_sticky :
    (l : EngineLifecycle) (e : Event)
    → l.permanent_failure ≡ true
    → (observe l e).1.permanent_failure ≡ true
unfolding observe require_recovery
observe_sticky l e h = ground (
  arith,
  (record_event_sticky e (record l { cursor = (accept l.cursor (protocol_of e) e.seq).1 })).1,
)

step_sticky :
    (l : EngineLifecycle) (i : Input)
    → l.permanent_failure ≡ true
    → (step l i).permanent_failure ≡ true
unfolding step reaped acknowledge_recovery
step_sticky l (event e) h = observe_sticky l e h
step_sticky l (reap c f) h = ground arith
step_sticky l acknowledge h = h

run_sticky :
    (l : EngineLifecycle) (is : List Input)
    → l.permanent_failure ≡ true
    → (run l is).permanent_failure ≡ true
unfolding run
run_sticky l [] h = h
run_sticky l (i ∷ is) h = run_sticky (step l i) is (step_sticky l i h)

-- After an event that observe refuses, retries stay blocked whatever follows: further events, reaps
-- and acknowledged recoveries.
pub refused_blocks_retry :
    (l : EngineLifecycle) (e : Event) (x : ErrorCode) (is : List Input)
    → (observe l e).0 ≡ err x
    → retry_blocked (run (observe l e).1 is) ≡ true
unfolding retry_blocked
refused_blocks_retry l e x is h =
    ground (arith, run_sticky (observe l e).1 is (observe_error l e x h).1)
