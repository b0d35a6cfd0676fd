-- ===== src/Tests/DnsPolicy.antt =====
-- A policy without our rule.
use openfortivpn.Network.Validate.{bad_domain}
use openfortivpn.Base.{◌≡◌, refl, false, [], ◌∷◌, Option, none, some, option_beq}
use openfortivpn.Base.Text.{
  Str, str_equality, lit, str_beq, to_lower, len, split, starts_with, ends_with, is_control,
  is_whitespace,
}
use openfortivpn.Base.Dict.{Dict, lookup}
use openfortivpn.Base.Error.{ok}
use openfortivpn.Network.DnsPolicy.{
  Json, text, boolean, array, Desired, Rule, Policy, rule_overlaps, same_values, properties,
}
use openfortivpn.Network.DnsPolicy.Inspection.{inspect_policy}
use openfortivpn.Network.DnsPolicy.Foreign.{inspection_excludes, Searched, Matched}

abbrev wanted_rule : Desired
wanted_rule = record {
  luid = 1;
  namespaces = lit ".a" ∷ [];
  servers = lit "s" ∷ [];
  display_name = lit "d";
  comment = lit "c";
}

abbrev foreign_rule : Rule
foreign_rule = record {
  name = lit "n";
  namespaces = lit ".b" ∷ [];
  servers = lit "s" ∷ [];
  display_name = lit "e";
  comment = lit "c";
  canonical = [];
}

abbrev our_rule : Rule
our_rule = record foreign_rule { namespaces = lit ".a" ∷ []; display_name = lit "d" }

-- The properties of our rule.
abbrev parse_ours : Str → Option (Dict Json)
parse_ours canonical = some (
    (lit "Comment", text (lit "c"))
    ∷ (lit "DirectAccessEnabled", boolean false)
    ∷ (lit "DisplayName", text (lit "d"))
    ∷ (lit "DnsSecEnabled", boolean false)
    ∷ (lit "Name", text (lit "n"))
    ∷ (lit "NameEncoding", text (lit "Punycode"))
    ∷ (lit "NameServers", text (lit "s"))
    ∷ (lit "Namespace", array (some (lit ".a") ∷ []))
    ∷ [])

abbrev foreign_only : Policy
foreign_only = record { local = foreign_rule ∷ []; effective = [] }

abbrev with_ours : Policy
with_ours = record { local = foreign_rule ∷ our_rule ∷ []; effective = our_rule ∷ [] }

inspects_absent : inspect_policy parse_ours foreign_only wanted_rule ≡ ok none
unfolding inspect_policy str_beq lit rule_overlaps bad_domain to_lower len split starts_with
    ends_with
inspects_absent = refl

inspects_ours : inspect_policy parse_ours with_ours wanted_rule ≡ ok (some our_rule)
unfolding inspect_policy str_beq lit rule_overlaps bad_domain to_lower len split starts_with
    ends_with is_control same_values properties option_beq lookup is_whitespace
inspects_ours = refl

-- Without our rule no rule meets its domains.
nothing_meets :
    Searched parse_ours wanted_rule foreign_only.local none
    × Matched parse_ours wanted_rule foreign_only.effective none
nothing_meets = inspection_excludes parse_ours wanted_rule foreign_only none inspects_absent

inspection_excludes_example :
    Searched parse_ours wanted_rule with_ours.local (some our_rule)
    × Matched parse_ours wanted_rule with_ours.effective (some our_rule)
inspection_excludes_example =
    inspection_excludes parse_ours wanted_rule with_ours (some our_rule) inspects_ours
