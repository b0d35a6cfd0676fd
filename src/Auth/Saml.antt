-- ===== src/Auth/Saml.antt =====
-- `CallbackBinding` of crates/manager-core/src/saml.rs.
pub mod OneShot
use openfortivpn.Base.{
  refl, arith, ◌≡◌, some, none, true, false, [], ◌∷◌, inl, inr, Bool-cases, Option-cases,
  if◌then◌else◌, Bool, List, Option, ℕ, not, ◌==◌, ◌||◌, ◌&&◌, ltb, leb, max, is_some, length, ◌<◌,
  ◌≤◌, suc, any, all, nat_equality, ◌++◌, saturating_add,
}
use openfortivpn.Base.Error.{ok, err, Result, Result-cases, invalid_input}
use openfortivpn.Base.Text.{
  Str, str_equality, str_beq_iff, len, is_alphanumeric, split_once, lit, bytes, strip_prefix,
  is_lower_hexdigit,
}
use openfortivpn.Auth.Frame.{all_from}

pub record CallbackBinding : Type 0 where
  pub attempt : Str
  pub generation : ℕ
  pub path : Str
  pub expires_at_ms : ℕ
  pub consumed : Bool

-- `CallbackBinding::new`
unfoldable pub new_binding : Str → ℕ → Str → ℕ → ℕ → Result CallbackBinding
new_binding attempt generation state now_ms timeout_ms =
    if not (len attempt == 36)
      || not (all_from 0 (bytes attempt))
      || not (len state == 64)
      || not (all is_lower_hexdigit (bytes state))
      || timeout_ms == 0
      || ltb 180000 timeout_ms
    then err invalid_input
    else ok (record {
      attempt = attempt;
      generation = generation;
      path = lit "/authentication/saml/" ++ attempt ++ lit "/" ++ state;
      expires_at_ms = saturating_add now_ms timeout_ms;
      consumed = false;
    })

-- `cancel`
unfoldable pub cancel : CallbackBinding → CallbackBinding
cancel b = record b { consumed = true }

abbrev pub is_token_byte : ℕ → Bool
is_token_byte c = is_alphanumeric c || c == 45

-- The token of a request target with this path.
unfoldable pub token_of : Str → Str → Result Str
token_of path target = elim (split_once 63 target) [
  | none ↦ err invalid_input
  | some (before, query) ↦ elim (strip_prefix (lit "id=") query) [
    | none ↦ err invalid_input
    | some token ↦
        if not (before == path)
          || token == []
          || ltb 128 (len token)
          || not (all is_token_byte (bytes token))
        then err invalid_input
        else ok token
  ]
]

-- `accept`; `loopback` is what `is_loopback` answers for the peer.
unfoldable pub accept_callback :
    CallbackBinding → Bool → Str → Str → Str → ℕ → ℕ → Result Str × CallbackBinding
unfolding token_of cancel
accept_callback b loopback method target active_attempt active_generation now_ms =
    if b.consumed
      || leb b.expires_at_ms now_ms
      || not loopback
      || not (method == lit "GET")
      || ltb 1024 (len target)
      || not (b.attempt == active_attempt)
      || not (b.generation == active_generation)
    then (err invalid_input, b)
    else elim (token_of b.path target) [ err e ↦ (err e, b) | ok token ↦ (ok token, cancel b) ]
