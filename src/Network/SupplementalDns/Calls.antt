-- ===== src/Network/SupplementalDns/Calls.antt =====
-- The calls of the supplemental DNS backend of crates/manager-core/src/network_macos.rs.
use openfortivpn.Base.{
  ℕ, Bool, not, ◌||◌, Option, none, some, is_some, ◌==◌, nat_equality, if◌then◌else◌,
}
use openfortivpn.Base.Text.{Str, str_equality}
use openfortivpn.Base.Dict.{Dict}
use openfortivpn.Base.Error.{Result, ok, err, recovery_required, network_conflict}
use openfortivpn.Base.Action.{Action, done, refuse, answer, refuse_if, ◌>>=◌, ◌>>◌}
use openfortivpn.Network.Model.{Resource, Dns}
use openfortivpn.Network.Monad.{Backend}
use openfortivpn.Network.SupplementalDns.{
  CfValue, cf_dictionary, DynamicStore, dictionary, equals, identity, dns_key, spec,
}

module _ {W : Type 0} (store : DynamicStore W) where
  abbrev pub copied : Option CfValue → W → Result (Option CfValue) × W
  copied (some v) w = (ok (some v), w)
  copied none w = (if store.last_error w == 1004 then ok none else err recovery_required, w)

  -- `value`: only the status of a missing key is absence.
  unfoldable pub value : Str → Action W (Option CfValue)
  value key w = let (v, w') = store.copy_value key w in copied v w'

  -- A call of the store that answers whether it succeeded.
  unfoldable pub checked : (W → Bool × W) → Action W (Unit {0})
  checked f w = let (good, w') = f w in (if good then ok tt else err recovery_required, w')

module _ {W : Type 0} (store : DynamicStore W) (encode : Dns → ℕ → Option Str) (digest : Str → Str)
    (show : ℕ → Str) (interfaces : Dict ℕ) where
  unfoldable pub bound : Resource → Action W (Dns × ℕ)
  bound resource w = (spec store interfaces resource w, w)

  unfoldable pub inspected : Dns → ℕ → Option CfValue → Action W (Option Str)
  inspected dns index none = done none
  inspected dns index (some v) =
      if equals v (dictionary dns)
      then (answer (identity encode digest dns index) >>= λ id. done (some id))
      else refuse network_conflict

  -- `inspect`
  unfoldable pub inspect : Resource → Action W (Option Str)
  inspect resource = bound resource >>= λ s. value store (dns_key show s.1) >>= inspected s.0 s.1

  unfoldable pub confirmed : Dns → ℕ → Option CfValue → Action W Str
  confirmed dns index none = refuse recovery_required
  confirmed dns index (some v) =
      if equals v (dictionary dns)
      then answer (identity encode digest dns index)
      else refuse recovery_required

  -- `apply`
  unfoldable pub apply : Resource → Action W Str
  apply resource = bound resource >>= λ s. value store (dns_key show s.1) >>= λ present.
      refuse_if (is_some present) network_conflict
      >> checked store (store.set_value (dns_key show s.1) (cf_dictionary (dictionary s.0)))
      >> value store (dns_key show s.1)
      >>= confirmed s.0 s.1

  unfoldable pub withdraw : Dns → ℕ → Str → Option CfValue → Action W (Unit {0})
  withdraw dns index expected none = done tt
  withdraw dns index expected (some v) = answer (identity encode digest dns index) >>= λ id.
      refuse_if (not (expected == id) || not (equals v (dictionary dns))) recovery_required
      >> checked store (store.remove_value (dns_key show index))
      >> value store (dns_key show index)
      >>= λ left. refuse_if (is_some left) recovery_required

  -- `remove`
  unfoldable pub remove : Resource → Str → Action W (Unit {0})
  remove resource expected =
      bound resource >>= λ s. value store (dns_key show s.1) >>= withdraw s.0 s.1 expected

  -- `MacosSupplementalDns` as a `Backend`
  unfoldable pub supplemental_dns : Backend W
  unfolding inspect apply remove
  supplemental_dns = record { inspect = inspect; apply = apply; remove = remove }
