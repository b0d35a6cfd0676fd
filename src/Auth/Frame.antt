-- ===== src/Auth/Frame.antt =====
-- Identities and command frames of crates/manager-core/src/control.rs.
pub mod Line
use openfortivpn.Base.{
  true, [], ◌∷◌, if◌then◌else◌, Bool, List, ℕ, not, ◌==◌, ◌||◌, ◌&&◌, ltb, any, all, nat_equality,
  ◌+◌, ◌++◌,
}
use openfortivpn.Base.Error.{ok, err, Result, invalid_input}
use openfortivpn.Base.Text.{Str, str_equality, is_lower_hexdigit, len, lit, bytes}

-- The bytes that stand at the given places of an identity of 36 bytes.
abbrev is_dash_place : ℕ → Bool
is_dash_place i = i == 8 || i == 13 || i == 18 || i == 23

-- `bytes().enumerate().all(...)` from a place on.
unfoldable pub all_from : ℕ → List ℕ → Bool
all_from i [] = true
all_from i (c ∷ cs) =
    (if is_dash_place i then c == 45 else is_lower_hexdigit c) && all_from (i + 1) cs

-- `valid_attempt`
unfoldable pub valid_attempt : Str → Bool
unfolding all_from
valid_attempt id = len id == 36 && all_from 0 (bytes id)

-- `valid_request`
unfoldable pub valid_request : Str → Bool
valid_request id = len id == 32 && all is_lower_hexdigit (bytes id)

pub data Command : Type 0 where
  auth_response auth_cancel lease_decision network_result : Command

abbrev pub command_name : Command → Str
command_name auth_response = lit "auth_response"
command_name auth_cancel = lit "auth_cancel"
command_name lease_decision = lit "lease_decision"
command_name network_result = lit "network_result"

abbrev is_frame_break : ℕ → Bool
is_frame_break c = c == 0 || c == 10 || c == 13

-- The answers that a command allows.
unfoldable pub allows : Command → Str → Bool
allows lease_decision value =
    value == lit "grant" || value == lit "grant_native" || value == lit "deny"
allows network_result value =
    value == lit "applied" || value == lit "released" || value == lit "deny"
allows _ value = true

-- `frame`, where `encode` is the base64 encoder.
unfoldable pub frame : (encode : Str → Str) → Str → Str → Command → Str → Result Str
unfolding valid_attempt valid_request allows
frame encode attempt request command value =
    if not (valid_attempt attempt)
      || not (valid_request request)
      || value == []
      || ltb 1024 (len value)
      || any is_frame_break (bytes value)
    then err invalid_input
    else if not (allows command value)
    then err invalid_input
    else ok (
        lit "OFV2 "
        ++ attempt
        ++ lit " "
        ++ request
        ++ lit " "
        ++ command_name command
        ++ lit " "
        ++ encode value
        ++ lit "\n")
