-- ===== src/Network/Handshake/Committed.antt =====
-- What a committed plan carries.
use openfortivpn.Base.{
  arith, ◌≡◌, some, none, true, false, [], ◌∷◌, Option-cases, List, ℕ, inl, inr, ◌≢◌, All, is_empty,
  length, ap,
}
use openfortivpn.Base.Error.{ok, err, Result, Result-cases}
use openfortivpn.Base.Text.{Str, str_equality, split_once, str_beq_iff}
use openfortivpn.Network.Handshake.{
  Event, Admission, InterfaceBinding, observe_frame, observe_request, observe_begin,
  observe_resource, observe_commit, check_resource, check_resources, check_prefix, parse_u32,
  assembled, Answer, check_plan, conclude,
}
use openfortivpn.Network.Model.{Plan, Resource}
use openfortivpn.Network.Validate.{validate}
use openfortivpn.Network.Cidr.{parse_u8, prefix, parse_ipv4}
use openfortivpn.Network.Cidr.Overlap.{Covers}

-- An answer that commits.
abbrev pub Yields : Admission × Answer → Plan × InterfaceBinding → Type 0
Yields r out = r.1 ≡ ok (some out)

-- What holds of an admission that commits.
abbrev pub Assembles : Admission → ℕ → Plan × InterfaceBinding → Type 0
Assembles a epoch (plan, b) =
    (plan ≡ assembled a epoch)
    × (a.binding ≡ some b)
    × (length a.resources ≡ a.expected)
    × (check_plan a epoch b ≡ ok tt)

pub begin_never :
    (a : Admission) (id : Str) (e : Event) (out : Plan × InterfaceBinding)
    → Yields (observe_begin a id e) out
    → ⊥
unfolding observe_begin
begin_never a id e out h = ground arith

pub resource_never :
    (a : Admission) (id : Str) (e : Event) (out : Plan × InterfaceBinding)
    → Yields (observe_resource a id e) out
    → ⊥
unfolding observe_resource
resource_never a id e out h = ground arith

conclude_sound :
    (a : Admission) (epoch : ℕ) (b : InterfaceBinding) (r : Result (Unit {0}))
    (out : Plan × InterfaceBinding)
    → Yields (conclude a epoch b r) out
    → (out ≡ (assembled a epoch, b))
      × (r ≡ ok tt)
      × ((conclude a epoch b r).0 ≡ record a { committed = true })
unfolding conclude
conclude_sound a epoch b (ok tt) out h = ground arith
conclude_sound a epoch b (err c) out h = cc

commit_sound :
    (a : Admission) (id : Str) (epoch : ℕ) (out : Plan × InterfaceBinding)
    → Yields (observe_commit a id epoch) out
    → Assembles a epoch out
unfolding observe_commit
commit_sound a id epoch out h = elim (Option-cases a.binding) [
  | inl f ↦ absurd (ground (arith, h, f))
  | inr (b, f) ↦
      let c = conclude_sound a epoch b (check_plan a epoch b) out (ground (arith, h, f)) in
      ground (arith, f, h, c.0, c.1)
]

request_sound :
    (a : Admission) (id : Str) (e : Event) (epoch : ℕ) (out : Plan × InterfaceBinding)
    → Yields (observe_request a id e epoch) out
    → Assembles a epoch out
unfolding observe_request
request_sound a id e epoch out h =
    ground
      (arith, h, begin_never a id e out, resource_never a id e out, commit_sound a id epoch out)

pub frame_sound :
    (a : Admission) (e : Event) (epoch : ℕ) (out : Plan × InterfaceBinding)
    → Yields (observe_frame a e epoch) out
    → Assembles a epoch out
unfolding observe_frame
frame_sound a e epoch out h = elim (Option-cases e.request_id) [
  | inl f ↦ absurd (ground (arith, h, f))
  | inr (id, f) ↦ ground (arith, h, f, request_sound a id e epoch out)
]

parse_u32-parse_u8 : (s : Str) (bits : ℕ) → parse_u8 s ≡ some bits → parse_u32 s ≡ some bits
unfolding parse_u8 parse_u32
parse_u32-parse_u8 s bits h = ground (arith, h)

-- A route that the checks let through does not reach the address that the tunnel runs over.
check_prefix_spares :
    (b : InterfaceBinding) (d : Str) (a bits : ℕ)
    → prefix d ≡ ok (a, bits)
    → check_prefix b d ≡ ok tt
    → (bits ≢ 0) × (Covers (a, bits) b.transport_address → ⊥)
unfolding prefix check_prefix
check_prefix_spares b d a bits h k = elim (Option-cases (split_once b'/' d)) [
  | inl f ↦ absurd (ground (arith, h, f))
  | inr (parts, f) ↦ elim (Option-cases (parse_ipv4 parts.0)) [
    | inl g ↦ absurd (ground (arith, h, f, g))
    | inr (a', g) ↦ elim (Option-cases (parse_u8 parts.1)) [
      | inl u ↦ absurd (ground (arith, h, f, g, u))
      | inr (bits', u) ↦
          let v = parse_u32-parse_u8 parts.1 bits' u in ground (arith, h, f, g, u, v, k)
    ]
  ]
]

-- The resource belongs to the interface of the binding, a route among them goes around the address
-- that the tunnel runs over, and a DNS entry among them names its domains.
abbrev pub IsProtected : InterfaceBinding → Resource → Type 0
IsProtected b (Resource.route r) =
    (r.interface ≡ b.interface)
    × (r.gateway ≡ none)
    × ((a bits : ℕ)
        → prefix r.destination ≡ ok (a, bits)
        → (bits ≢ 0) × (Covers (a, bits) b.transport_address → ⊥))
IsProtected b (Resource.dns d) = (d.interface ≡ b.interface) × (is_empty d.domains ≡ false)

check_resource_sound :
    (b : InterfaceBinding) (r : Resource) → check_resource b r ≡ ok tt → IsProtected b r
unfolding check_resource
check_resource_sound b (Resource.route r) h =
    let c : check_prefix b r.destination ≡ ok tt = ground (arith, h) in
    (
      ground (arith, h, str_beq_iff r.interface b.interface),
      ground (arith, h),
      λ a bits k. check_prefix_spares b r.destination a bits k c,
    )
check_resource_sound b (Resource.dns d) h = ground (arith, h, str_beq_iff d.interface b.interface)

check_resources_sound :
    (b : InterfaceBinding) (rs : List Resource)
    → check_resources b rs ≡ ok tt
    → All (IsProtected b) rs
unfolding check_resources
check_resources_sound b [] h = tt
check_resources_sound b (r ∷ rs) h = elim (Result-cases (check_resource b r)) [
  | inl (tt, f) ↦ (check_resource_sound b r f, check_resources_sound b rs (ground (arith, h, f)))
  | inr (c, f) ↦ absurd (ground (arith, h, f))
]

-- A committed plan carries the identity that the manager holds and the epoch it names, and exactly
-- the resources that were collected, as many as announced. It is valid, and with the interface that
-- was announced every resource of it is protected: none of its routes covers the address that the
-- tunnel runs over.
pub commit_protects :
    (a : Admission) (e : Event) (epoch : ℕ) (plan : Plan) (b : InterfaceBinding)
    → (observe_frame a e epoch).1 ≡ ok (some (plan, b))
    → (plan.attempt_id ≡ a.attempt)
      × (plan.profile_id ≡ a.profile)
      × (plan.generation ≡ a.generation)
      × (plan.network_epoch ≡ epoch)
      × (plan.resources ≡ a.resources)
      × (length plan.resources ≡ a.expected)
      × (a.binding ≡ some b)
      × (validate plan (record { split_dns = true }) ≡ ok tt)
      × All (IsProtected b) plan.resources
unfolding check_plan assembled
commit_protects a e epoch plan b h =
    let (is, bound, complete, checked) = frame_sound a e epoch (plan, b) h in
    let rs : plan.resources ≡ a.resources = ap (λ (p : Plan). p.resources) is in
    elim (Result-cases (validate (assembled a epoch) (record { split_dns = true }))) [
      | inl (u, f) ↦ (
        ap (λ (p : Plan). p.attempt_id) is,
        ap (λ (p : Plan). p.profile_id) is,
        ap (λ (p : Plan). p.generation) is,
        ap (λ (p : Plan). p.network_epoch) is,
        rs,
        rw rs complete,
        bound,
        rw is f,
        rw rs (check_resources_sound b a.resources (ground (arith, checked, f))),
      )
      | inr (c, f) ↦ absurd (ground (arith, checked, f))
    ]
