-- ===== src/Network/DnsPolicy/Foreign.antt =====
-- What an inspection of the policy has excluded.
use mathlib.Core.Path.{subst}
use mathlib.Core.List.{Perm}
use openfortivpn.Base.Sort.{sorted_same-Perm}
use openfortivpn.Base.{
  ◌⊎◌, is_empty, refl, sym, ◌≡◌, inl, inr, true, false, List, [], ◌∷◌, ◌++◌, Option, none, some,
  All, arith, ◌==◌, any, Bool-cases,
}
use openfortivpn.Base.Text.{Str, str_equality, str_beq_iff}
use openfortivpn.Base.Dict.{Dict}
use openfortivpn.Base.Error.{ok, Result-cases}
use openfortivpn.Network.DnsPolicy.{
  Json, Desired, Rule, Policy, rule_overlaps, same_values, properties,
}
use openfortivpn.Network.DnsPolicy.Inspection.{
  validate_owned, bad_owned, inspect_local, inspect_effective, inspect_policy, is_stray, is_on,
  effective_fields,
}

module _ (parse : Str → Option (Dict Json)) (wanted : Desired) where
  -- The rule is the one that is wanted: it has a name, and exactly the display name, comment,
  -- domains and servers, in any order.
  pub record IsOurs (rule : Rule) : Type 0 where
    pub named : is_empty rule.name ≡ false
    pub displayed : rule.display_name ≡ wanted.display_name
    pub commented : rule.comment ≡ wanted.comment
    pub scoped : Perm rule.namespaces wanted.namespaces
    pub served : Perm rule.servers wanted.servers

  -- The rule is ours by its name, or does not meet the wanted domains.
  abbrev pub IsHarmless : Rule → Type 0
  IsHarmless rule = (rule.display_name ≡ wanted.display_name) ⊎ (rule_overlaps rule wanted ≡ false)

  -- An effective rule does not meet the wanted domains, or has the wanted servers.
  abbrev pub IsShadow : Rule → Type 0
  IsShadow rule = (rule_overlaps rule wanted ≡ false) ⊎ Perm rule.servers wanted.servers

  same_values-Perm : (a b : List Str) → same_values a b ≡ true → Perm a b
  unfolding same_values
  same_values-Perm a b h = sorted_same-Perm a b h

  bad_owned-IsOurs : (rule : Rule) → bad_owned rule wanted ≡ false → IsOurs rule
  unfolding bad_owned
  bad_owned-IsOurs rule h = record {
    named = ground (arith, h);
    displayed = ground (arith, h, str_beq_iff rule.display_name wanted.display_name);
    commented = ground (arith, h, str_beq_iff rule.comment wanted.comment);
    scoped = same_values-Perm rule.namespaces wanted.namespaces (ground (arith, h));
    served = same_values-Perm rule.servers wanted.servers (ground (arith, h));
  }

  validate_owned_sound :
      (rule : Rule) → validate_owned parse rule wanted ≡ ok tt → bad_owned rule wanted ≡ false
  unfolding validate_owned
  validate_owned_sound rule h = elim (Bool-cases (bad_owned rule wanted)) [
    | inl bad ↦ absurd (ground (arith, h, bad))
    | inr good ↦ good
  ]

  -- One rule is found already: no other rule may be ours.
  local_after :
      (first : Rule) (rules : List Rule) (owned : Option Rule)
      → inspect_local parse (some first) rules wanted ≡ ok owned
      → (owned ≡ some first) × All (λ rule. rule_overlaps rule wanted ≡ false) rules
  unfolding inspect_local
  local_after first [] owned h = (ground (arith, h), tt)
  local_after first (rule ∷ rules) owned h =
      elim (Bool-cases (rule.display_name == wanted.display_name)) [
        | inl ours ↦ absurd (ground (arith, h, ours))
        | inr foreign ↦ elim (Bool-cases (rule_overlaps rule wanted)) [
          | inl meets ↦ absurd (ground (arith, h, foreign, meets))
          | inr apart ↦
              let rest = local_after first rules owned (ground (arith, h, foreign, apart)) in
              (rest.0, (apart, rest.1))
        ]
      ]

  -- The rule is one of the list.
  abbrev pub IsAmong : Rule → List Rule → Type 0
  IsAmong r [] = ⊥
  IsAmong r (rule ∷ rules) = (rule ≡ r) ⊎ IsAmong r rules

  -- What is known of the local rules for each answer.
  abbrev pub Searched : List Rule → Option Rule → Type 0
  Searched rules none = All (λ rule. rule_overlaps rule wanted ≡ false) rules
  Searched rules (some r) = IsAmong r rules × IsOurs r × All IsHarmless rules

  apart-IsHarmless :
      (rules : List Rule)
      → All (λ rule. rule_overlaps rule wanted ≡ false) rules
      → All IsHarmless rules
  apart-IsHarmless [] h = tt
  apart-IsHarmless (rule ∷ rules) h = (inr h.0, apart-IsHarmless rules h.1)

  local_more :
      (rule : Rule) (rules : List Rule) (owned : Option Rule)
      → rule_overlaps rule wanted ≡ false
      → Searched rules owned
      → Searched (rule ∷ rules) owned
  local_more rule rules none apart s = (apart, s)
  local_more rule rules (some r) apart s = (inr s.0, s.1, (inr apart, s.2))

  local_sound :
      (rules : List Rule) (owned : Option Rule)
      → inspect_local parse none rules wanted ≡ ok owned
      → Searched rules owned
  unfolding inspect_local
  local_sound [] none h = tt
  local_sound [] (some r) h = cc
  local_sound (rule ∷ rules) owned h =
      elim (Bool-cases (rule.display_name == wanted.display_name)) [
        | inl ours ↦ elim (Result-cases (validate_owned parse rule wanted)) [
          | inr (e, f) ↦ absurd (ground (arith, h, ours, f))
          | inl (u, f) ↦
              let after = local_after rule rules owned (ground (arith, h, ours, f)) in
              subst (Searched (rule ∷ rules)) (sym after.0) (
                inl refl,
                bad_owned-IsOurs rule (validate_owned_sound rule f),
                (
                  inl ((str_beq_iff rule.display_name wanted.display_name).0 ours),
                  apart-IsHarmless rules after.1,
                ),
              )
        ]
        | inr foreign ↦ elim (Bool-cases (rule_overlaps rule wanted)) [
          | inl meets ↦ absurd (ground (arith, h, foreign, meets))
          | inr apart ↦
              local_more rule rules owned apart
                (local_sound rules owned (ground (arith, h, foreign, apart)))
        ]
      ]

  -- What is known of the effective rules for each answer.
  abbrev pub Matched : List Rule → Option Rule → Type 0
  Matched rules none = All (λ rule. rule_overlaps rule wanted ≡ false) rules
  Matched rules (some r) = All IsShadow rules

  effective_more :
      (rule : Rule) (rules : List Rule) (owned : Option Rule)
      → rule_overlaps rule wanted ≡ false
      → Matched rules owned
      → Matched (rule ∷ rules) owned
  effective_more rule rules none apart m = (apart, m)
  effective_more rule rules (some r) apart m = (inl apart, m)

  effective_shadow :
      (rule : Rule) (rules : List Rule) (owned : Option Rule)
      → is_stray owned rule wanted ≡ false
      → Matched rules owned
      → Matched (rule ∷ rules) owned
  unfolding is_stray
  effective_shadow rule rules none e m = absurd (ground (arith, e))
  effective_shadow rule rules (some r) e m =
      (inr (same_values-Perm rule.servers wanted.servers (ground (arith, e))), m)

  effective_sound :
      (owned : Option Rule) (seen last : List Str) (rules : List Rule)
      → inspect_effective parse owned seen rules wanted ≡ ok last
      → Matched rules owned
  unfolding inspect_effective
  effective_sound none seen last [] h = tt
  effective_sound (some r) seen last [] h = tt
  effective_sound owned seen last (rule ∷ rules) h = elim (Bool-cases (rule_overlaps rule wanted)) [
    | inr apart ↦
        effective_more rule rules owned apart
          (effective_sound owned seen last rules (ground (arith, h, apart)))
    | inl meets ↦ elim (Bool-cases (is_stray owned rule wanted)) [
      | inl stray ↦ absurd (ground (arith, h, meets, stray))
      | inr shadow ↦ elim (Result-cases (properties parse rule)) [
        | inr (e, f) ↦ absurd (ground (arith, h, meets, shadow, f))
        | inl (props, f) ↦ elim (Bool-cases (any (λ field. is_on field props) effective_fields)) [
          | inl on ↦ absurd (ground (arith, h, meets, shadow, f, on))
          | inr off ↦ effective_shadow rule rules owned shadow (
              effective_sound owned (seen ++ rule.namespaces) last rules
                (ground (arith, h, meets, shadow, f, off)))
        ]
      ]
    ]
  ]

  -- If an inspection finds no rule of ours, no rule at all, local or effective, meets the wanted
  -- domains. If it finds one, that is a local rule with exactly our display name and comment, and with
  -- our domains and our servers up to their order; every other local rule that meets the wanted
  -- domains has our display name, and every effective one has our servers.
  pub inspection_excludes :
      (policy : Policy) (owned : Option Rule)
      → inspect_policy parse policy wanted ≡ ok owned
      → Searched policy.local owned × Matched policy.effective owned
  unfolding inspect_policy
  inspection_excludes policy owned h =
      elim (Result-cases (inspect_local parse none policy.local wanted)) [
        | inr (e, f) ↦ absurd (ground (arith, h, f))
        | inl (found, f) ↦
            elim (Result-cases (inspect_effective parse found [] policy.effective wanted)) [
              | inr (e, g) ↦ absurd (ground (arith, h, f, g))
              | inl (seen, g) ↦
                  let same : found ≡ owned = ground (arith, h, f, g) in
                  subst (λ o. Searched policy.local o × Matched policy.effective o) same
                    (
                      local_sound policy.local found f,
                      effective_sound found [] seen policy.effective g,
                    )
            ]
      ]
