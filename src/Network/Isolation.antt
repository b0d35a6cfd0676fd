-- ===== src/Network/Isolation.antt =====
-- No two attempts hold conflicting resources or one profile: an invariant of every operation.
pub mod Shrinks
pub mod Saved
use mathlib.Core.Path.{subst}
use openfortivpn.Base.{
  arith, Bool-cases, ◌==◌, arith, ◌≡◌, sym, false, some, ◌∙◌, any, ◌≢◌, [], ◌∷◌, List,
  if◌then◌else◌, Option-cases, inl, inr,
}
use openfortivpn.Network.Model.{Plan, Snapshot, Lease, BackendCapabilities, Entry, plan_equality}
use openfortivpn.Network.Leases.{check_lease, check_leases, plan, preview, fresh_lease}
use openfortivpn.Base.Text.{Str, str_beq_iff, str_equality}
use openfortivpn.Network.Plans.{SamePlans}
use openfortivpn.Base.Dict.{lookup, Dict, values, insert, lookup-insert}
use openfortivpn.Network.Conflict.{any_swap, clash, any_ext, clash_comm}
use openfortivpn.Base.Error.{ok}

-- Plans that two attempts may hold at once.
pub record AreCompatible (p q : Plan) : Type 0 where
  pub profiles : (p.profile_id == q.profile_id) ≡ false
  pub resources : any (λ a. any (λ b. clash a b) q.resources) p.resources ≡ false

pub record IsIsolated (s : Snapshot) : Type 0 where
  pub keyed : (i : Str) (p : Plan) → plan i s ≡ some p → p.attempt_id ≡ i
  pub compatible :
      (i j : Str) (p q : Plan) → i ≢ j → plan i s ≡ some p → plan j s ≡ some q → AreCompatible p q

AreCompatible-symm : {p q : Plan} → AreCompatible p q → AreCompatible q p
AreCompatible-symm {p} {q} h = record {
  profiles = ground (
    arith,
    h.profiles,
    str_beq_iff p.profile_id q.profile_id,
    str_beq_iff q.profile_id p.profile_id,
  );
  resources =
      any_swap clash q.resources p.resources
      ∙ any_ext _ _ p.resources (λ a. any_ext _ _ q.resources (λ b. clash_comm b a))
      ∙ h.resources;
}

pub SamePlans-IsIsolated : {s t : Snapshot} → SamePlans s t → IsIsolated s → IsIsolated t
SamePlans-IsIsolated h v = record {
  keyed = λ i p e. v.keyed i p (sym (h.plans i) ∙ e);
  compatible =
      λ i j p q ne e f. v.compatible i j p q ne (sym (h.plans i) ∙ e) (sym (h.plans j) ∙ f);
}

-- What `preview` has checked against one lease of another attempt.
check_lease_sound :
    (p : Plan) (lease : Lease)
    → check_lease p lease ≡ ok tt
    → (lease.plan.attempt_id == p.attempt_id) ≡ false
    → AreCompatible p lease.plan
unfolding check_lease
check_lease_sound p lease h ne = record {
  profiles = ground (
    arith,
    str_beq_iff p.profile_id lease.plan.profile_id,
    str_beq_iff lease.plan.profile_id p.profile_id,
  );
  resources = ground arith;
}

check_leases-lookup :
    (p : Plan) (i : Str) (m : Dict Lease) (lease : Lease)
    → check_leases p (values m) ≡ ok tt
    → lookup i m ≡ some lease
    → check_lease p lease ≡ ok tt
unfolding check_leases lookup
check_leases-lookup p i [] lease h e = cc
check_leases-lookup p i ((j, l) ∷ m) lease h e = ground (arith, check_leases-lookup p i m lease)

preview_sound :
    (p : Plan) (caps : BackendCapabilities) (s : Snapshot)
    → preview p caps s ≡ ok tt
    → check_leases p (values s.records) ≡ ok tt
unfolding preview
preview_sound p caps s h = ground arith

pub plan-insert :
    (p : Plan) (entries : List Entry) (s : Snapshot) (i : Str)
    → plan i (record s { records = insert p.attempt_id (fresh_lease p entries) s.records })
      ≡ (if p.attempt_id == i then some p else plan i s)
unfolding plan
plan-insert p entries s i =
    rw (plan, lookup-insert p.attempt_id i (fresh_lease p entries) s.records) (ground arith)

-- What the lease of another attempt holds is compatible with a plan that passed `preview`.
preview-AreCompatible :
    (p q : Plan) (caps : BackendCapabilities) (s : Snapshot) (i : Str)
    → IsIsolated s
    → preview p caps s ≡ ok tt
    → plan i s ≡ some q
    → (p.attempt_id == i) ≡ false
    → AreCompatible p q
unfolding plan
preview-AreCompatible p q caps s i v pre e ne = elim (Option-cases (lookup i s.records)) [
  | inl absent ↦ absurd (ground arith)
  | inr (lease, f) ↦
      let same : lease.plan ≡ q = ground arith in
      let key : lease.plan.attempt_id ≡ i = v.keyed i lease.plan (ground arith) in
      let checked = check_leases-lookup p i s.records lease (preview_sound p caps s pre) f in
      subst (λ q. AreCompatible p q) same
        (check_lease_sound p lease checked (
          ground
            (arith, str_beq_iff p.attempt_id i, str_beq_iff lease.plan.attempt_id p.attempt_id)))
]

-- A plan that passes `preview` and is new can join the others.
pub insert-IsIsolated :
    (p : Plan) (caps : BackendCapabilities) (entries : List Entry) (s : Snapshot)
    → preview p caps s ≡ ok tt
    → IsIsolated s
    → IsIsolated (record s { records = insert p.attempt_id (fresh_lease p entries) s.records })
insert-IsIsolated p caps entries s pre v = record {
  keyed =
      λ i q e. ground (arith, plan-insert p entries s i, v.keyed i q, str_beq_iff p.attempt_id i);
  compatible = λ i j q r ne e f. elim (Bool-cases (p.attempt_id == i)) [
    | inl is_i ↦ elim (Bool-cases (p.attempt_id == j)) [
      | inl is_j ↦
          absurd (ne (ground (arith, str_beq_iff p.attempt_id i, str_beq_iff p.attempt_id j)))
      | inr not_j ↦
          subst (λ q. AreCompatible q r) (ground (arith, plan-insert p entries s i))
            (preview-AreCompatible p r caps s j v pre (ground (arith, plan-insert p entries s j))
              not_j)
    ]
    | inr not_i ↦ elim (Bool-cases (p.attempt_id == j)) [
      | inl is_j ↦ AreCompatible-symm (
          subst (λ r. AreCompatible r q) (ground (arith, plan-insert p entries s j))
            (preview-AreCompatible p q caps s i v pre (ground (arith, plan-insert p entries s i))
              not_i))
      | inr not_j ↦
          v.compatible i j q r ne (ground (arith, plan-insert p entries s i))
            (ground (arith, plan-insert p entries s j))
    ]
  ];
}

-- A plan that passes `preview` for an attempt with a lease is the plan of that lease.
pub preview_same :
    (p : Plan) (lease : Lease) (caps : BackendCapabilities) (s : Snapshot)
    → IsIsolated s
    → preview p caps s ≡ ok tt
    → lookup p.attempt_id s.records ≡ some lease
    → plan p.attempt_id s ≡ some p
unfolding plan check_lease
preview_same p lease caps s v pre e =
    let key : lease.plan.attempt_id ≡ p.attempt_id =
      v.keyed p.attempt_id lease.plan (ground arith) in
    let checked =
      check_leases-lookup p p.attempt_id s.records lease (preview_sound p caps s pre) e in
    ground
      (arith, str_beq_iff lease.plan.attempt_id p.attempt_id, plan_equality.beq_iff lease.plan p)
