-- ===== src/Network/Store/Loaded.antt =====
-- What a store that opens holds.
use mathlib.Core.Path.{subst}
use openfortivpn.Base.{
  sym, ◌≤◌, ◌≡◌, refl, ap, List, [], ◌∷◌, some, true, false, length, All, arith, inr, ◌≤◌, inl,
  Bool-cases, ◌==◌,
}
use openfortivpn.Base.Text.{Str, str_equality, str_beq_iff}
use openfortivpn.Base.Dict.{Dict, lookup}
use openfortivpn.Base.Error.{ok, Result-cases}
use openfortivpn.Network.Model.{Resource, Entry, Lease, Snapshot, resource_equality}
use openfortivpn.Network.Leases.{bad_fingerprint}
use openfortivpn.Network.Validate.{validate}
use openfortivpn.Network.Store.{mismatched, check_record, check_records, load}

abbrev pub resources_of : List Entry → List Resource
resources_of [] = []
resources_of (entry ∷ entries) = entry.resource ∷ resources_of entries

-- No mismatch, and as many entries as resources: the entries are for the resources, in order.
mismatched_sound :
    (entries : List Entry) (resources : List Resource)
    → length entries ≡ length resources
    → mismatched entries resources ≡ false
    → (resources_of entries ≡ resources)
      × All (λ (e : Entry). bad_fingerprint e.fingerprint ≡ false) entries
unfolding mismatched
mismatched_sound [] [] n h = (refl, tt)
mismatched_sound [] (r ∷ rs) n h = absurd (omega (arith, n))
mismatched_sound (e ∷ es) [] n h = absurd (omega (arith, n))
mismatched_sound (e ∷ es) (r ∷ rs) n h =
    let rest = mismatched_sound es rs (omega (arith, n)) (ground (arith, h)) in
    let same : e.resource ≡ r = (resource_equality.beq_iff e.resource r).0 (ground (arith, h)) in
    (cc, (ground (arith, h), rest.1))

-- What a record of a lease that is loaded says.
abbrev pub IsConsistent : Str → Lease → Type 0
IsConsistent id lease =
    (lease.plan.attempt_id ≡ id)
    × (validate lease.plan (record { split_dns = true }) ≡ ok tt)
    × (resources_of lease.entries ≡ lease.plan.resources)
    × All (λ (e : Entry). bad_fingerprint e.fingerprint ≡ false) lease.entries

pub check_record_sound :
    (id : Str) (lease : Lease) → check_record id lease ≡ ok tt → IsConsistent id lease
unfolding check_record
check_record_sound id lease h =
    elim (Result-cases (validate lease.plan (record { split_dns = true }))) [
      | inr (e, f) ↦ absurd (ground (arith, h, f))
      | inl (u, f) ↦
          let m =
            mismatched_sound lease.entries lease.plan.resources (ground (arith, h, f))
              (ground (arith, h, f)) in
          (ground (arith, h, f, str_beq_iff id lease.plan.attempt_id), f, m.0, m.1)
    ]

check_records_sound :
    (records : Dict Lease) (id : Str) (lease : Lease)
    → check_records records ≡ ok tt
    → lookup id records ≡ some lease
    → IsConsistent id lease
unfolding check_records lookup
check_records_sound [] id lease h e = cc
check_records_sound ((key, first) ∷ rest) id lease h e =
    elim (Result-cases (check_record key first)) [
      | inr (c, f) ↦ absurd (ground (arith, h, f))
      | inl (u, f) ↦ elim (Bool-cases (key == id)) [
        | inl here ↦
            let l : first ≡ lease = ground (arith, e, here) in
            subst (λ i. IsConsistent i lease) ((str_beq_iff key id).0 here)
              (subst (λ x. IsConsistent key x) l (check_record_sound key first f))
        | inr there ↦
            check_records_sound rest id lease (ground (arith, h, f)) (ground (arith, e, there))
      ]
    ]

-- A snapshot that loads is the one in the file, with 512 leases at most; and a lease that is found
-- under an identity belongs to that attempt, has a valid plan, and has one entry for each resource
-- of the plan, in order, whose fingerprint, if any, is one that a backend may report.
pub load-IsConsistent :
    (s t : Snapshot) (id : Str) (lease : Lease)
    → load s ≡ ok t
    → lookup id t.records ≡ some lease
    → (t ≡ s) × (length t.records ≤ 512) × IsConsistent id lease
unfolding load
load-IsConsistent s t id lease h e = elim (Result-cases (check_records s.records)) [
  | inr (c, f) ↦ absurd (ground (arith, h, f))
  | inl (u, f) ↦
      let same : t ≡ s = ground (arith, h, f) in
      let rs : t.records ≡ s.records = ap (λ (x : Snapshot). x.records) same in
      let few : length s.records ≤ 512 = ground (arith, h) in
      (same, rw rs few, check_records_sound s.records id lease f (rw (sym rs) e))
]
