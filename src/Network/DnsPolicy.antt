-- ===== src/Network/DnsPolicy.antt =====
-- The name resolution policy of Windows: crates/manager-core/src/network_windows_dns_policy.rs. The
-- JSON reader and writer and the SHA-256 digest are arguments.
pub mod Inspection
pub mod Foreign
use openfortivpn.Base.{
  ℕ, ◌+◌, ◌/◌, ◌^◌, ◌-◌, Bool, true, false, not, ◌&&◌, ◌||◌, List, [], ◌∷◌, ◌++◌, map, Option, none,
  some, ltb, leb, ◌==◌, nat_equality, length, is_empty, any, all, if◌then◌else◌,
}
use openfortivpn.Base.Text.{
  Str, str_equality, lit, len, bytes, ends_with, to_lower, strip_prefix, is_lower_hexdigit,
}
use openfortivpn.Base.Sort.{sort_texts, dedup, texts_same}
use openfortivpn.Base.Dict.{Dict}
use openfortivpn.Base.Error.{
  Result, ok, err, invalid_input, recovery_required, network_conflict, reject_if, ◌>>=◌, ◌>>◌,
}
use openfortivpn.Network.Model.{Dns}
use openfortivpn.Network.Cidr.{or_err, show_ipv4}
use openfortivpn.Network.Validate.{bad_domain}

-- A JSON value as the code asks for it; an array by what `as_str` answers for its elements.
pub data Json : Type 0 where
  null other : Json
  boolean : Bool → Json
  text : Str → Json
  array : List (Option Str) → Json

pub record Desired : Type 0 where
  pub luid : ℕ  -- u64
  pub namespaces : List Str
  pub servers : List Str
  pub display_name : Str
  pub comment : Str

pub record Rule : Type 0 where
  pub name : Str
  pub namespaces : List Str
  pub servers : List Str
  pub display_name : Str
  pub comment : Str
  pub canonical : Str

pub record Policy : Type 0 where
  pub local : List Rule
  pub effective : List Rule

-- `COMMENT`
abbrev policy_comment : Str
policy_comment = lit "openfortivpn-manager scoped-dns v1"

-- `domain`, which is the test that a plan makes on its domains.
unfoldable pub domain : Str → Bool
domain value = not (bad_domain value)

-- A server that no policy may name: unspecified, loopback, multicast or broadcast.
unfoldable pub bad_server : ℕ → Bool
bad_server v = v == 0 || v / 2 ^ 24 == 127 || v / 2 ^ 28 == 14 || v == 2 ^ 32 - 1

unfoldable pub is_unscoped : Dns → ℕ → Bool
unfolding domain bad_server
is_unscoped dns luid =
    luid == 0
    || is_empty dns.domains
    || ltb 32 (length dns.domains)
    || is_empty dns.servers
    || ltb 4 (length dns.servers)
    || any (λ v. not (domain v)) dns.domains
    || any bad_server dns.servers

-- `desired`, where `identity` is the JSON text of the identity and `digest` its hexadecimal hash.
unfoldable pub desired :
    (identity : ℕ → List Str → List Str → Option Str) (digest : Str → Str) (dns : Dns) (luid : ℕ)
    → Result Desired
unfolding is_unscoped
desired identity digest dns luid =
    let namespaces = dedup (sort_texts (map (λ v. b'.' ∷ v) dns.domains)) in
    let servers = dedup (sort_texts (map show_ipv4 dns.servers)) in
    reject_if (is_unscoped dns luid) invalid_input
    >> reject_if
        (not (length namespaces == length dns.domains)
          || not (length servers == length dns.servers))
        recovery_required
    >> or_err (identity luid namespaces servers) recovery_required
    >>= λ encoded. ok (record {
      luid = luid;
      namespaces = namespaces;
      servers = servers;
      display_name = lit "OpenFortiVPN Manager " ++ digest encoded;
      comment = policy_comment;
    })

-- `trim_start_matches('.')`
unfoldable pub trim_dots : Str → Str
trim_dots [] = []
trim_dots (c ∷ s) = elim (c == b'.') [ true ↦ trim_dots s | false ↦ c ∷ s ]

-- `overlap`
unfoldable pub overlap : Str → Str → Bool
unfolding trim_dots domain
overlap namespace requested =
    let existing = to_lower (trim_dots namespace) in
    let wanted = trim_dots requested in
    not (domain existing)
    || existing == wanted
    || ends_with existing (b'.' ∷ wanted)
    || ends_with wanted (b'.' ∷ existing)

-- `overlaps`
unfoldable pub rule_overlaps : Rule → Desired → Bool
unfolding overlap
rule_overlaps rule wanted =
    is_empty rule.namespaces
    || any (λ existing. any (λ w. overlap existing w) wanted.namespaces) rule.namespaces

-- `same_values`
unfoldable pub same_values : List Str → List Str → Bool
unfolding texts_same sort_texts
same_values a b = texts_same (sort_texts a) (sort_texts b)

-- `properties`, where `parse` reads a JSON object.
unfoldable pub properties : (parse : Str → Option (Dict Json)) → Rule → Result (Dict Json)
properties parse rule = do
  reject_if
      (ltb 32768 (len rule.canonical)
        || ltb 128 (len rule.name)
        || ltb 64 (length rule.namespaces)
        || ltb 64 (length rule.servers))
      recovery_required
  props ← or_err (parse rule.canonical) recovery_required
  reject_if (ltb 64 (length props)) recovery_required
  ok props

-- The beginning of a fingerprint, where `show` prints a u64.
abbrev fingerprint_head : (show : ℕ → Str) → ℕ → Str
fingerprint_head show luid = lit "nrpt-v1:" ++ show luid ++ lit ":"

-- `fingerprint`
unfoldable pub rule_fingerprint :
    (parse : Str → Option (Dict Json)) (show : ℕ → Str) (digest : Str → Str) (rule : Rule)
    (luid : ℕ)
    → Result Str
unfolding properties
rule_fingerprint parse show digest rule luid =
    properties parse rule >>= λ props. ok (fingerprint_head show luid ++ digest rule.canonical)

-- `expected_hash`
unfoldable pub expected_hash : (show : ℕ → Str) → Str → ℕ → Result Str
expected_hash show value luid = do
  hash ← or_err (strip_prefix (fingerprint_head show luid) value) recovery_required
  reject_if (not (len hash == 64) || not (all is_lower_hexdigit (bytes hash))) recovery_required
  ok hash
