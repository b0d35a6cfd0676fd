-- ===== src/Tests/Auth.antt =====
-- Challenges and callbacks at concrete inputs.
use openfortivpn.Base.{refl, ◌≡◌, some, true, false, [], ◌∷◌, length, ◌≤◌, arith, nat_equality, ◌<◌}
use openfortivpn.Base.Error.{ok, is_ok}
use openfortivpn.Base.Text.{Str, str_equality, lit, len, str_beq}
use openfortivpn.Auth.Challenges.{
  Challenge, Challenges, register, respond, expire, Pending, admit_challenge, no_challenges,
}
use openfortivpn.Auth.Challenges.Answered.{respond_once}
use openfortivpn.Auth.Challenges.Once.{spares, op_run, closed, register_once}
use openfortivpn.Auth.Saml.{CallbackBinding}
use openfortivpn.Auth.Saml.OneShot.{Callback, sessions, one_session}
use openfortivpn.Base.Dict.{lookup, retain}
use openfortivpn.Auth.Frame.{valid_attempt, valid_request, frame}
use openfortivpn.Auth.Challenges.Bounds.{IsWithinCapacity}

abbrev attempt_one : Str
attempt_one = lit "00000000-0000-4000-8000-000000000001"

abbrev request_one : Str
request_one = lit "0123456789abcdef0123456789abcdef"

abbrev token_prompt : Challenge
token_prompt = record {
  profile_id = lit "one";
  attempt_id = attempt_one;
  request_id = request_one;
  prompt = lit "Token";
  expires_at_ms = 120000;
  max_response_bytes = 64;
}

abbrev plain_text : Str → Str
plain_text s = s

abbrev asked : Challenges
asked = record {
  pending = (lit "one", record { challenge = token_prompt; generation = 7 }) ∷ [];
  seen = (attempt_one, (request_one, tt) ∷ []) ∷ [];
}

first_registered : (register token_prompt 7 1 no_challenges).0 ≡ ok tt
unfolding register expire admit_challenge valid_attempt len lit valid_request str_beq retain lookup
first_registered = refl

register_once_example :
    is_ok
      (register token_prompt 8 3 (
        op_run plain_text
          (register token_prompt 7 1 no_challenges).1
          (closed (lit "one") attempt_one request_one ∷ []))).0
    ≡ false
unfolding spares
register_once_example =
    register_once plain_text no_challenges token_prompt token_prompt 7 8 1 3
      (closed (lit "one") attempt_one request_one ∷ []) first_registered refl refl refl

abbrev sent_frame : Str
sent_frame =
    lit
      "OFV2 00000000-0000-4000-8000-000000000001 0123456789abcdef0123456789abcdef auth_response 123\n"

respond_once_example :
    ((p : Pending) × (lookup (lit "one") (expire 1 asked).pending ≡ some p)
      × (p.challenge.attempt_id ≡ attempt_one)
      × (p.challenge.request_id ≡ request_one)
      × (p.generation ≡ 7)
      × (1 < p.challenge.expires_at_ms)
      × (len (lit "123") ≤ p.challenge.max_response_bytes))
    × (is_ok
          (respond plain_text (lit "one") attempt_one 8 request_one 2 (lit "456") (
            op_run plain_text
              (respond plain_text (lit "one") attempt_one 7 request_one 1 (lit "123") asked).1
              [])).0
        ≡ false)
unfolding respond lookup expire retain str_beq lit len frame
respond_once_example =
    respond_once plain_text (lit "one") attempt_one request_one (lit "123") sent_frame (lit "456") 7
      8 1 2 asked [] refl refl refl

abbrev one_binding : CallbackBinding
one_binding = record {
  attempt = attempt_one;
  generation = 7;
  path = lit "/saml";
  expires_at_ms = 120000;
  consumed = false;
}

abbrev one_callback : Callback
one_callback = record {
  loopback = true;
  method = lit "GET";
  target = lit "/saml?id=abc";
  active_attempt = attempt_one;
  active_generation = 7;
  now_ms = 1;
}

one_session_example : length (sessions one_binding (one_callback ∷ one_callback ∷ [])) ≤ 1
one_session_example = one_session one_binding (one_callback ∷ one_callback ∷ [])

asked-IsWithinCapacity : IsWithinCapacity asked
unfolding lookup
asked-IsWithinCapacity = record {
  few_pending = omega arith;
  few_requests = λ attempt. ground arith;
}
