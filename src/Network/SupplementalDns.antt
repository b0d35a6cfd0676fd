-- ===== src/Network/SupplementalDns.antt =====
-- Supplemental DNS of macOS: crates/manager-core/src/network_macos.rs. The dynamic store of the
-- system, the JSON writer, SHA-256 and the printer of an index are arguments.
pub mod Calls
pub mod Foreign
use openfortivpn.Base.{
  ℕ, Bool, true, false, not, ◌&&◌, ◌||◌, List, [], ◌∷◌, ◌++◌, map, Option, none, some, is_some, ltb,
  ◌==◌, nat_equality, length, is_empty, any, if◌then◌else◌,
}
use openfortivpn.Base.Text.{Str, str_equality, lit, bytes}
use openfortivpn.Base.Sort.{texts_same}
use openfortivpn.Base.Dict.{Dict, lookup}
use openfortivpn.Base.Error.{
  Result, ok, err, ErrorCode, invalid_input, recovery_required, reject_if, ◌>>=◌, ◌>>◌,
}
use openfortivpn.Network.Model.{Resource, Dns, Plan}
use openfortivpn.Network.Cidr.{or_err, show_ipv4}
use openfortivpn.Network.Validate.{validate}

-- What a dictionary of the store holds; `cf_unknown` is what the code never writes.
pub data CfItem : Type 0 where
  cf_text : Str → CfItem
  cf_texts : List Str → CfItem
  cf_unknown : CfItem

-- A value of the store: a dictionary in the order of its keys, or another type.
pub data CfValue : Type 0 where
  cf_dictionary : Dict CfItem → CfValue
  cf_other : CfValue

-- `SCDynamicStoreCopyValue`, `SCError`, `SCDynamicStoreSetValue`, `SCDynamicStoreRemoveValue`, and
-- `if_nametoindex`.
pub record DynamicStore (W : Type 0) : Type 0 where
  pub copy_value : Str → W → Option CfValue × W
  pub last_error : W → ℕ
  pub set_value : Str → CfValue → W → Bool × W
  pub remove_value : Str → W → Bool × W
  pub name_to_index : Str → W → ℕ

-- `dictionary`
unfoldable pub dictionary : Dns → Dict CfItem
dictionary dns =
    (lit "InterfaceName", cf_text dns.interface)
    ∷ (lit "ServerAddresses", cf_texts (map show_ipv4 dns.servers))
    ∷ (lit "SupplementalMatchDomains", cf_texts dns.domains)
    ∷ []

unfoldable pub same_item : CfItem → CfItem → Bool
same_item (cf_text a) (cf_text b) = a == b
same_item (cf_texts a) (cf_texts b) = texts_same a b
same_item _ _ = false

unfoldable pub same_dictionary : Dict CfItem → Dict CfItem → Bool
unfolding same_item
same_dictionary [] [] = true
same_dictionary ((k, a) ∷ ds) ((l, b) ∷ es) = k == l && same_item a b && same_dictionary ds es
same_dictionary _ _ = false

-- `equals`
unfoldable pub equals : CfValue → Dict CfItem → Bool
unfolding same_dictionary
equals (cf_dictionary d) wanted = same_dictionary d wanted
equals cf_other wanted = false

-- `identity`, where `encode` is the JSON text and `digest` its hexadecimal hash.
unfoldable pub identity :
    (encode : Dns → ℕ → Option Str) (digest : Str → Str) (dns : Dns) (index : ℕ) → Result Str
identity encode digest dns index = elim (encode dns index) [
  | none ↦ err recovery_required
  | some text ↦ ok (digest text)
]

-- `key`, where `show` prints an index.
unfoldable pub dns_key : (show : ℕ → Str) → ℕ → Str
dns_key show index = lit "State:/Network/Service/openfortivpn-manager-" ++ show index ++ lit "/DNS"

-- The plan that `spec` validates.
abbrev check_plan : Resource → Plan
check_plan resource = record {
  attempt_id = lit "check";
  profile_id = lit "check";
  generation = 1;
  network_epoch = 0;
  resources = resource ∷ [];
}

-- The interface is bound to its index, and the resource is scoped and bounded.
unfoldable pub bad_binding : (index actual : ℕ) → Dns → Bool
bad_binding index actual dns =
    index == 0
    || not (actual == index)
    || is_empty dns.servers
    || ltb 4 (length dns.servers)
    || is_empty dns.domains
    || ltb 32 (length dns.domains)

module _ {W : Type 0} (store : DynamicStore W) where
  -- `spec`, in a world that it lets be.
  unfoldable pub spec : (interfaces : Dict ℕ) → Resource → W → Result (Dns × ℕ)
  unfolding bad_binding
  spec interfaces (Resource.route _) w = err invalid_input
  spec interfaces (Resource.dns dns) w =
      reject_if (any (λ c. c == 0) (bytes dns.interface)) invalid_input
      >> or_err (lookup dns.interface interfaces) invalid_input
      >>= λ index.
          reject_if (bad_binding index (store.name_to_index dns.interface w) dns) invalid_input
          >> validate (check_plan (Resource.dns dns)) (record { split_dns = true })
          >> ok (dns, index)
