-- ===== src/Network/Store/Loadable.antt =====
-- Snapshots that load: the checks of `FileJournal::load` are complete, and the changes of the
-- coordinator keep to them.
use mathlib.Core.Path.{subst}
use openfortivpn.Base.{
  ◌∙◌, ◌≡◌, refl, ap, sym, ◌≤◌, List, [], ◌∷◌, some, false, ◌==◌, length, All, arith, Bool-cases,
  inl, inr,
}
use openfortivpn.Base.Text.{Str, str_equality, str_beq_iff, str_lt}
use openfortivpn.Base.Dict.{Dict, lookup, insert, remove, modify, map_values}
use openfortivpn.Base.Error.{ok, Result-cases}
use openfortivpn.Network.Model.{Entry, Lease, Snapshot, resource_equality}
use openfortivpn.Network.Leases.{bad_fingerprint}
use openfortivpn.Network.Store.{mismatched, check_record, check_records, load}
use openfortivpn.Network.Store.Loaded.{resources_of, IsConsistent, check_record_sound}

mismatched_complete :
    (es : List Entry)
    → All (λ (e : Entry). bad_fingerprint e.fingerprint ≡ false) es
    → mismatched es (resources_of es) ≡ false
unfolding mismatched
mismatched_complete [] h = refl
mismatched_complete (e ∷ es) h = ground (
  arith,
  h.0,
  mismatched_complete es h.1,
  (resource_equality.beq_iff e.resource e.resource).1 refl,
)

length-resources_of : (es : List Entry) → length (resources_of es) ≡ length es
length-resources_of [] = refl
length-resources_of (e ∷ es) = omega (arith, length-resources_of es)

check_record_complete :
    (id : Str) (lease : Lease) → IsConsistent id lease → check_record id lease ≡ ok tt
unfolding check_record
check_record_complete id lease (mine, valid, same, fine) =
    let long : length lease.entries ≡ length lease.plan.resources =
      sym (length-resources_of lease.entries) ∙ ap length same in
    let met : mismatched lease.entries lease.plan.resources ≡ false =
      rw (sym same) (mismatched_complete lease.entries fine) in
    ground (arith, valid, met, long, (str_beq_iff id lease.plan.attempt_id).1 (sym mine))

-- Every lease is consistent with its key.
abbrev pub Consistent : Dict Lease → Type 0
Consistent records = All (λ (r : Str × Lease). IsConsistent r.0 r.1) records

pub record IsLoadable (s : Snapshot) : Type 0 where
  pub versioned : s.schema_version ≡ 1
  pub few : length s.records ≤ 512
  pub consistent : Consistent s.records

check_records_complete : (records : Dict Lease) → Consistent records → check_records records ≡ ok tt
unfolding check_records
check_records_complete [] h = refl
check_records_complete ((id, lease) ∷ rest) h =
    rw (check_record_complete id lease h.0) (check_records_complete rest h.1)

-- A loadable snapshot loads as itself.
pub load-IsLoadable : (s : Snapshot) → IsLoadable s → load s ≡ ok s
unfolding load
load-IsLoadable s h =
    ground (arith, h.versioned, h.few, check_records_complete s.records h.consistent)

check_records-Consistent :
    (records : Dict Lease) → check_records records ≡ ok tt → Consistent records
unfolding check_records
check_records-Consistent [] h = tt
check_records-Consistent ((id, lease) ∷ rest) h = elim (Result-cases (check_record id lease)) [
  | inr (c, f) ↦ absurd (ground (arith, h, f))
  | inl (u, f) ↦
      (check_record_sound id lease f, check_records-Consistent rest (ground (arith, h, f)))
]

-- A snapshot that loads is loadable.
pub load_sound : (s t : Snapshot) → load s ≡ ok t → IsLoadable t
unfolding load
load_sound s t h = elim (Result-cases (check_records s.records)) [
  | inr (c, f) ↦ absurd (ground (arith, h, f))
  | inl (u, f) ↦
      let same : s ≡ t = ground (arith, h, f) in
      let loadable : IsLoadable s = record {
        versioned = ground (arith, h);
        few = ground (arith, h);
        consistent = check_records-Consistent s.records f;
      } in
      subst IsLoadable same loadable
]

pub insert-Consistent :
    (id : Str) (lease : Lease) (d : Dict Lease)
    → IsConsistent id lease
    → Consistent d
    → Consistent (insert id lease d)
unfolding insert
insert-Consistent id lease [] k h = (k, tt)
insert-Consistent id lease ((j, old) ∷ d) k h = elim (Bool-cases (j == id)) [
  | inl here ↦ rw here (k, h.1)
  | inr there ↦ elim (Bool-cases (str_lt id j)) [
    | inl before ↦ rw (there, before) (k, h)
    | inr after ↦ rw (there, after) (h.0, insert-Consistent id lease d k h.1)
  ]
]

pub remove-Consistent : (id : Str) (d : Dict Lease) → Consistent d → Consistent (remove id d)
unfolding remove
remove-Consistent id [] h = tt
remove-Consistent id ((j, old) ∷ d) h = elim (Bool-cases (j == id)) [
  | inl here ↦ rw here (remove-Consistent id d h.1)
  | inr there ↦ rw there (h.0, remove-Consistent id d h.1)
]

-- A change of a lease that keeps it consistent.
abbrev pub KeepsConsistent : (Lease → Lease) → Type 0
KeepsConsistent f = (id : Str) (lease : Lease) → IsConsistent id lease → IsConsistent id (f lease)

pub modify-Consistent :
    (id : Str) (f : Lease → Lease) (d : Dict Lease)
    → KeepsConsistent f
    → Consistent d
    → Consistent (modify id f d)
unfolding modify
modify-Consistent id f [] k h = tt
modify-Consistent id f ((j, old) ∷ d) k h = elim (Bool-cases (j == id)) [
  | inl here ↦ rw here (k j old h.0, h.1)
  | inr there ↦ rw there (h.0, modify-Consistent id f d k h.1)
]

pub map_values-Consistent :
    (f : Lease → Lease) (d : Dict Lease)
    → KeepsConsistent f
    → Consistent d
    → Consistent (map_values f d)
unfolding map_values
map_values-Consistent f [] k h = tt
map_values-Consistent f ((j, old) ∷ d) k h = (k j old h.0, map_values-Consistent f d k h.1)

pub lookup-Consistent :
    (id : Str) (lease : Lease) (d : Dict Lease)
    → lookup id d ≡ some lease
    → Consistent d
    → IsConsistent id lease
unfolding lookup
lookup-Consistent id lease [] e h = absurd (ground (arith, e))
lookup-Consistent id lease ((j, old) ∷ d) e h = elim (Bool-cases (j == id)) [
  | inl here ↦
      let l : old ≡ lease = ground (arith, e, here) in
      subst (λ i. IsConsistent i lease) ((str_beq_iff j id).0 here)
        (subst (λ x. IsConsistent j x) l h.0)
  | inr there ↦ lookup-Consistent id lease d (ground (arith, e, there)) h.1
]
