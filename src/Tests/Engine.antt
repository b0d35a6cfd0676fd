-- ===== src/Tests/Engine.antt =====
-- The engine's lifecycle at concrete events.
use openfortivpn.Base.{refl, ◌≡◌, some, none, true, false, [], ◌∷◌}
use openfortivpn.Base.Error.{invalid_input}
use openfortivpn.Base.Text.{str_equality, lit, str_beq}
use openfortivpn.Engine.Lifecycle.{
  Event, EngineLifecycle, observe, default_lifecycle, is_foreign, retry_blocked, touches_network,
  is_cleanup, reaped,
}
use openfortivpn.Engine.Lifecycle.Trace.{
  RisesAbove, accepted, accepted_rises, observe_all, unclean_without_result,
}
use openfortivpn.Engine.Cursor.{accept, advance}
use openfortivpn.Engine.Lifecycle.Sticky.{run, acknowledge, refused_blocks_retry}

abbrev quiet_event : Event
quiet_event = record {
  attempt_id = some (lit "a");
  protocol_version = some 2;
  seq = some 1;
  name = some (lit "tunnel_up");
  state = none;
  success = none;
  retryable = none;
  category = none;
}

abbrev foreign_event : Event
foreign_event = record quiet_event { attempt_id = some (lit "b") }

abbrev private_run : EngineLifecycle
private_run = record default_lifecycle { attempt_id = some (lit "a"); require_identity = true }

refused_blocks_retry_example :
    retry_blocked (run (observe private_run foreign_event).1 (acknowledge ∷ [])) ≡ true
unfolding observe is_foreign str_beq lit
refused_blocks_retry_example =
    refused_blocks_retry private_run foreign_event invalid_input (acknowledge ∷ []) refl

unclean_without_result_example :
    (reaped (observe_all (observe private_run quiet_event).1 []) true false).0 ≡ false
unfolding observe is_foreign accept advance touches_network is_cleanup str_beq lit
unclean_without_result_example =
    unclean_without_result private_run quiet_event [] true false refl refl refl refl tt

accepted_rises_example :
    RisesAbove private_run.cursor.last (accepted private_run (quiet_event ∷ quiet_event ∷ []))
accepted_rises_example = accepted_rises private_run (quiet_event ∷ quiet_event ∷ [])
