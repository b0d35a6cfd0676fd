-- ===== src/Network/DnsPolicy/Inspection.antt =====
-- `validate_owned` and `inspect` of crates/manager-core/src/network_windows_dns_policy.rs.
use openfortivpn.Base.{
  ℕ, Bool, true, false, not, ◌&&◌, ◌||◌, List, [], ◌∷◌, ◌++◌, Option, none, some, ltb, ◌==◌, length,
  is_empty, is_some, any, if◌then◌else◌, option_equality, nat_equality,
}
use openfortivpn.Base.Text.{Str, str_equality, lit, is_control, is_whitespace}
use openfortivpn.Base.Dict.{Dict, lookup}
use openfortivpn.Base.Error.{
  Result, ok, recovery_required, network_conflict, reject_if, ◌>>=◌, ◌>>◌,
}
use openfortivpn.Network.Cidr.{or_err}
use openfortivpn.Network.DnsPolicy.{
  Json, null, boolean, text, array, Desired, Rule, Policy, rule_overlaps, same_values, properties,
}

-- `as_str` of a field
unfoldable pub text_field : Str → Dict Json → Option Str
text_field field props = elim (lookup field props) [ some (text s) ↦ some s | _ ↦ none ]

-- `get(field) == Some(&Value::Bool(false))`
unfoldable pub is_off : Str → Dict Json → Bool
is_off field props = elim (lookup field props) [ some (boolean b) ↦ not b | _ ↦ false ]

-- `is_some_and(|v| !v.is_null() && *v != Value::Bool(false))`
unfoldable pub is_on : Str → Dict Json → Bool
is_on field props = elim (lookup field props) [
  | none ↦ false
  | some null ↦ false
  | some (boolean b) ↦ b
  | some _ ↦ true
]

unfoldable pub all_texts : List (Option Str) → Option (List Str)
all_texts [] = some []
all_texts (none ∷ rest) = none
all_texts (some s ∷ rest) = elim (all_texts rest) [ none ↦ none | some ss ↦ some (s ∷ ss) ]

-- `from_value` as a `Vec<String>`
unfoldable pub text_list : Option Json → Option (List Str)
unfolding all_texts
text_list (some (array elements)) = all_texts elements
text_list _ = none

abbrev is_separator : ℕ → Bool
is_separator c = c == b',' || c == b';' || is_whitespace c

-- The parts between separators; those that are empty are left out. `part` is the current one.
unfoldable pub server_parts : Str → Str → List Str
server_parts part [] = if is_empty part then [] else part ∷ []
server_parts part (c ∷ s) = elim (is_separator c) [
  | true ↦ let rest = server_parts [] s in if is_empty part then rest else part ∷ rest
  | false ↦ server_parts (part ++ (c ∷ [])) s
]

-- The value of `NameServers`
unfoldable pub server_list : Option Json → Option (List Str)
unfolding all_texts server_parts
server_list (some (text servers)) = some (server_parts [] servers)
server_list (some (array elements)) = all_texts elements
server_list _ = none

-- The fields of a local rule and those of an effective one that must not be set.
abbrev security_fields : List Str
security_fields =
    lit "DirectAccessEnabled"
    ∷ lit "DnsSecEnabled"
    ∷ lit "DnsSecValidationRequired"
    ∷ lit "DnsSecQueryIPsecRequired"
    ∷ lit "DirectAccessQueryIPsecRequired"
    ∷ []

abbrev pub effective_fields : List Str
effective_fields =
    lit "DirectAccessEnabled"
    ∷ lit "DnsSecValidationRequired"
    ∷ lit "DnsSecQueryIPsecRequired"
    ∷ lit "DirectAccessQueryIPsecRequired"
    ∷ []

-- The properties of a rule that are not those of the one that is wanted.
unfoldable pub bad_properties : Rule → Desired → Dict Json → Bool
unfolding text_field is_off is_on
bad_properties rule wanted props =
    not (text_field (lit "Name") props == some rule.name)
    || not (text_field (lit "DisplayName") props == some wanted.display_name)
    || not (text_field (lit "Comment") props == some wanted.comment)
    || not (text_field (lit "NameEncoding") props == some (lit "Punycode"))
    || not (is_off (lit "DirectAccessEnabled") props)
    || not (is_off (lit "DnsSecEnabled") props)

unfoldable pub bad_owned : Rule → Desired → Bool
bad_owned rule wanted =
    is_empty rule.name
    || any is_control rule.name
    || not (rule.display_name == wanted.display_name)
    || not (rule.comment == wanted.comment)
    || not (same_values rule.namespaces wanted.namespaces)
    || not (same_values rule.servers wanted.servers)

-- An overlapping effective rule that is not the shadow of the owned one.
unfoldable pub is_stray : Option Rule → Rule → Desired → Bool
is_stray owned rule wanted =
    not (is_some owned)
    || not (same_values rule.servers wanted.servers)
    || is_empty rule.namespaces
    || any (λ v. not (any (λ w. w == v) wanted.namespaces)) rule.namespaces

module _ (parse : Str → Option (Dict Json)) where
  -- `validate_owned`
  unfoldable pub validate_owned : Rule → Desired → Result (Unit {0})
  unfolding bad_owned bad_properties text_list server_list
  validate_owned rule wanted = do
    reject_if (bad_owned rule wanted) recovery_required
    props ← properties parse rule
    reject_if (bad_properties rule wanted props) recovery_required
    namespaces ← or_err (text_list (lookup (lit "Namespace") props)) recovery_required
    servers ← or_err (server_list (lookup (lit "NameServers") props)) recovery_required
    reject_if
        (not (same_values namespaces wanted.namespaces) || not (same_values servers wanted.servers))
        recovery_required
    reject_if (any (λ field. is_on field props) security_fields) recovery_required

  -- The loop over the local rules; `owned` is the rule that was found.
  unfoldable pub inspect_local : Option Rule → List Rule → Desired → Result (Option Rule)
  unfolding validate_owned
  inspect_local owned [] wanted = ok owned
  inspect_local owned (rule ∷ rules) wanted =
      if rule.display_name == wanted.display_name
      then reject_if (is_some owned) recovery_required
        >> validate_owned rule wanted
        >> inspect_local (some rule) rules wanted
      else reject_if (rule_overlaps rule wanted) network_conflict
        >> inspect_local owned rules wanted

  -- The loop over the effective rules; the result is `seen`.
  unfoldable pub inspect_effective :
      Option Rule → List Str → List Rule → Desired → Result (List Str)
  unfolding is_stray is_on
  inspect_effective owned seen [] wanted = ok seen
  inspect_effective owned seen (rule ∷ rules) wanted =
      if not (rule_overlaps rule wanted)
      then inspect_effective owned seen rules wanted
      else reject_if (is_stray owned rule wanted) network_conflict
        >> properties parse rule
        >>= λ props.
            reject_if (any (λ field. is_on field props) effective_fields) network_conflict
            >> inspect_effective owned (seen ++ rule.namespaces) rules wanted

  -- `inspect`
  unfoldable pub inspect_policy : Policy → Desired → Result (Option Rule)
  unfolding inspect_local inspect_effective
  inspect_policy policy wanted = do
    reject_if (ltb 512 (length policy.local) || ltb 512 (length policy.effective)) recovery_required
    owned ← inspect_local none policy.local wanted
    seen ← inspect_effective owned [] policy.effective wanted
    reject_if (is_some owned && not (same_values seen wanted.namespaces)) recovery_required
    ok owned
