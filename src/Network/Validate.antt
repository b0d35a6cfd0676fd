-- ===== src/Network/Validate.antt =====
-- `Plan::validate` of crates/manager-core/src/network.rs.
pub mod Total
use openfortivpn.Base.{
  ℕ, Bool, not, ◌&&◌, ◌||◌, List, [], ◌∷◌, ltb, ◌==◌, nat_equality, any, all, is_empty, length,
}
use openfortivpn.Base.Text.{
  Str, len, bytes, split, to_lower, is_alphanumeric, is_control, starts_with, ends_with,
  str_equality,
}
use openfortivpn.Base.Error.{Result, ok, invalid_input, ◌>>=◌, ◌>>◌, reject_if}
use openfortivpn.Network.Model.{Resource, Plan, BackendCapabilities, resource_equality}
use openfortivpn.Network.Cidr.{prefix}

abbrev is_identity_byte : ℕ → Bool
is_identity_byte c = is_alphanumeric c || c == b'-' || c == b'_'

-- The test on an attempt or profile identity.
unfoldable pub valid_identity : Str → Bool
valid_identity id = not (is_empty id || ltb 128 (len id) || not (all is_identity_byte (bytes id)))

abbrev bad_label : Str → Bool
bad_label label =
    is_empty label
    || ltb 63 (len label)
    || starts_with label (b'-' ∷ [])
    || ends_with label (b'-' ∷ [])
    || not (all (λ c. is_alphanumeric c || c == b'-') (bytes label))

unfoldable pub bad_domain : Str → Bool
bad_domain domain =
    is_empty domain
    || ltb 253 (len domain)
    || not (domain == to_lower domain)
    || any bad_label (split b'.' domain)

-- The checks of one `match` arm; the result is the interface.
unfoldable pub checked_interface : BackendCapabilities → Resource → Result Str
checked_interface caps (Resource.route r) = prefix r.destination >>= λ _. ok r.interface
checked_interface caps (Resource.dns d) = do
  reject_if (is_empty d.servers || ltb 4 (length d.servers) || ltb 32 (length d.domains))
      invalid_input
  reject_if (not caps.split_dns && not (is_empty d.domains)) invalid_input
  reject_if (any bad_domain d.domains) invalid_input
  ok d.interface

unfoldable pub valid_interface : Str → Bool
valid_interface i = not (is_empty i || ltb 128 (len i) || any is_control i)

-- The loop over the resources; `unique` holds those that were seen.
unfoldable pub validate_resources :
    BackendCapabilities → List Resource → List Resource → Result (Unit {0})
validate_resources caps unique [] = ok tt
validate_resources caps unique (r ∷ rs) =
    reject_if (any (λ seen. seen == r) unique) invalid_input
    >> checked_interface caps r
    >>= λ interface.
        reject_if (not (valid_interface interface)) invalid_input
        >> validate_resources caps (r ∷ unique) rs

-- `Plan::validate`
unfoldable pub validate : Plan → BackendCapabilities → Result (Unit {0})
validate plan caps = do
  reject_if (not (valid_identity plan.attempt_id)) invalid_input
  reject_if (not (valid_identity plan.profile_id)) invalid_input
  reject_if (ltb 128 (length plan.resources)) invalid_input
  validate_resources caps [] plan.resources
