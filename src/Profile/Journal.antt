-- ===== src/Profile/Journal.antt =====
-- `Intent` of crates/manager-core/src/credential_journal.rs.
use openfortivpn.Base.{
  some, none, true, false, [], ◌∷◌, if◌then◌else◌, Bool, List, Option, ℕ, not, ◌==◌, ◌||◌, ◌&&◌,
  ltb, is_some, any, is_none_or, nat_equality, ◌+◌,
}
use openfortivpn.Base.Error.{Result, reject_if, recovery_required, ◌>>◌}
use openfortivpn.Base.Text.{
  Str, str_equality, is_hexdigit, len, bytes, strip_prefix, lit, is_control,
}

pub record Intent : Type 0 where
  pub profile_id : Str
  pub old_ref : Option Str
  pub new_ref : Option Str
  pub delete_profile : Bool

abbrev is_dash_place : ℕ → Bool
is_dash_place i = i == 8 || i == 13 || i == 18 || i == 23

unfoldable pub uuid_from : ℕ → List ℕ → Bool
uuid_from i [] = true
uuid_from i (c ∷ cs) = (if is_dash_place i then c == 45 else is_hexdigit c) && uuid_from (i + 1) cs

-- `uuid`
unfoldable pub uuid : Str → Bool
unfolding uuid_from
uuid value = len value == 36 && uuid_from 0 (bytes value)

-- A reference that is neither the profile's id nor a credential's.
unfoldable pub is_bad_reference : Str → Option Str → Bool
is_bad_reference profile_id none = false
is_bad_reference profile_id (some reference) =
    not (reference == profile_id)
    && is_none_or (strip_prefix (lit "credential:") reference) (λ id. not (uuid id))

-- `Intent::validate`
unfoldable pub validate_intent : Intent → Result (Unit {0})
unfolding is_bad_reference
validate_intent i =
    reject_if
      (i.profile_id == []
        || ltb 128 (len i.profile_id)
        || i.profile_id == lit "__remote_access_token"
        || any is_control i.profile_id
        || (i.delete_profile && is_some i.new_ref))
      recovery_required
    >> reject_if (is_bad_reference i.profile_id i.old_ref) recovery_required
    >> reject_if (is_bad_reference i.profile_id i.new_ref) recovery_required
