-- ===== src/Profile/Validation.antt =====
-- crates/manager-core/src/validation.rs
use openfortivpn.Base.{
  some, none, [], ◌∷◌, if◌then◌else◌, Bool, List, ℕ, not, ◌==◌, ◌||◌, ◌&&◌, any, all, ltb,
  is_some_and, last?, nat_equality, Option,
}
use openfortivpn.Base.Error.{ok, err, Result, invalid_input, reject_if, ◌>>◌, ◌>>=◌}
use openfortivpn.Base.Text.{
  Str, lit, len, str_equality, is_ascii_whitespace, is_blank, is_hexdigit, bytes, to_lower,
}
use openfortivpn.Profile.Model.{VpnProfile}

unfoldable pub is_line_break : ℕ → Bool
is_line_break c = c == 0 || c == 10 || c == 13

-- `line`
unfoldable pub line : Str → Result (Unit {0})
unfolding is_line_break reject_if
line value = reject_if (any is_line_break value) invalid_input

abbrev head? {ℓ} : {A : Type ℓ} → List A → Option A
head? [] = none
head? (a ∷ _) = some a

-- `engine_field`
unfoldable pub engine_field : Str → ℕ → Result (Unit {0})
unfolding line
engine_field value max_bytes =
    line value
    >> reject_if (ltb max_bytes (len value)) invalid_input
    >> reject_if
        (is_some_and (head? (bytes value)) is_ascii_whitespace
          || is_some_and (last? (bytes value)) is_ascii_whitespace)
        invalid_input

-- `password`
unfoldable pub password : Str → Result (Unit {0})
password value = engine_field value 256

-- `certificate_pin`
unfoldable pub certificate_pin : Str → Result Str
certificate_pin value =
    if not (value == []) && (not (len value == 64) || not (all is_hexdigit (bytes value)))
    then err invalid_input
    else ok (to_lower value)

unfoldable pub has_bad_shape : VpnProfile → Bool
has_bad_shape p =
    is_blank p.id
    || is_blank p.name
    || is_blank p.host
    || p.id == lit "__remote_access_token"
    || ltb 128 (len p.id)
    || ltb 256 (len p.name)
    || p.port == 0

-- `profile`
unfoldable pub validate_profile : VpnProfile → Result (Unit {0})
validate_profile p =
    reject_if (has_bad_shape p) invalid_input
    >> line p.id
    >> line p.name
    >> engine_field p.host 253
    >> engine_field p.username 64
    >> engine_field p.realm 63
    >> (certificate_pin p.trusted_cert >>= λ _. ok tt)
