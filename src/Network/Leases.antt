-- ===== src/Network/Leases.antt =====
-- The parts of `Coordinator` in crates/manager-core/src/network.rs that call neither the backend nor
-- the journal.
use openfortivpn.Base.{
  ℕ, zero, suc, Bool, true, false, not, ◌&&◌, ◌||◌, List, [], ◌∷◌, Option, none, some, ltb, leb,
  if◌then◌else◌, ◌==◌, nat_equality, option_equality, any, find, is_empty, is_some, get_elem?,
}
use openfortivpn.Base.Text.{Str, len, str_equality}
use openfortivpn.Base.Dict.{Dict, lookup, modify, values, map_values}
use openfortivpn.Base.Error
use openfortivpn.Base.Error.{
  Result, ok, err, ErrorCode, invalid_input, network_conflict, recovery_required, reject_if,
}
use openfortivpn.Network.Model.{
  Resource, Plan, BackendCapabilities, Phase, applying, active, releasing, needs_recovery, Entry,
  Lease, Snapshot, plan_equality, phase_equality, prepared,
}
use openfortivpn.Network.Conflict.{shareable, clash}
use openfortivpn.Network.Validate.{validate}

-- `Coordinator::plan`
unfoldable pub plan : Str → Snapshot → Option Plan
plan attempt s = elim (lookup attempt s.records) [ none ↦ none | some lease ↦ some lease.plan ]

-- `Coordinator::phase`
unfoldable pub phase : Str → Snapshot → Option Phase
phase attempt s = elim (lookup attempt s.records) [ none ↦ none | some lease ↦ some lease.phase ]

abbrev pub recovered_lease : Lease → Lease
recovered_lease lease = record lease { phase = needs_recovery; uncertain = true }

abbrev pub interrupted : Lease → Lease
interrupted lease = if lease.phase == applying then recovered_lease lease else lease

-- `Coordinator::from_snapshot`
unfoldable pub from_snapshot : Snapshot → Snapshot
from_snapshot s = record s { records = map_values interrupted s.records }

-- `self.snapshot.records.get_mut(attempt).unwrap()` and an assignment
abbrev pub modify_lease : Str → (Lease → Lease) → Snapshot → Snapshot
modify_lease attempt f s = record s { records = modify attempt f s.records }

abbrev pub is_settling : Phase → Bool
is_settling p = p == needs_recovery || p == releasing || p == applying

-- The body of the loop in `preview`.
unfoldable pub check_lease : Plan → Lease → Result (Unit {0})
check_lease plan lease =
    if lease.plan.attempt_id == plan.attempt_id
    then (if is_settling lease.phase
        then err recovery_required
        else if not (lease.plan == plan)
        then err network_conflict
        else ok tt)
    else if lease.plan.profile_id == plan.profile_id
        || any (λ a. any (λ b. clash a b) lease.plan.resources) plan.resources
    then err network_conflict
    else ok tt

unfoldable pub check_leases : Plan → List Lease → Result (Unit {0})
check_leases plan [] = ok tt
check_leases plan (lease ∷ leases) = Error.◌>>◌ (check_lease plan lease) (check_leases plan leases)

-- `Coordinator::preview`
unfoldable pub preview : Plan → BackendCapabilities → Snapshot → Result (Unit {0})
preview plan caps s = Error.◌>>◌ (validate plan caps) (
    Error.◌>>◌ (reject_if (not (plan.network_epoch == s.network_epoch)) network_conflict)
      (check_leases plan (values s.records)))

-- An identity that a backend may report.
abbrev pub valid_fingerprint : Str → Bool
valid_fingerprint id = not (is_empty id) && leb (len id) 512

abbrev pub bad_fingerprint : Option Str → Bool
bad_fingerprint none = false
bad_fingerprint (some id) = is_empty id || ltb 512 (len id)

-- `created_by_existing_owner` in `prepare`
abbrev pub created_by_owner : Resource → Option Str → Dict Lease → Bool
created_by_owner resource existing records =
    any
      (λ (lease : Lease).
        any
          (λ (entry : Entry).
            not entry.borrowed
            && is_some entry.fingerprint
            && entry.fingerprint == existing
            && shareable resource entry.resource)
          lease.entries)
      (values records)

-- The first entry of another active lease that created this resource.
abbrev pub shared_creation : Str → Resource → Dict Lease → Option Entry
shared_creation attempt resource [] = none
shared_creation attempt resource ((id, lease) ∷ records) =
    let rest = shared_creation attempt resource records in
    if not (id == attempt) && lease.phase == active
    then elim (find (λ (other : Entry). shareable resource other.resource && not other.borrowed)
        lease.entries) [ some other ↦ some other | none ↦ rest ]
    else rest

-- Whether another lease records the same shareable resource with this fingerprint.
abbrev pub held_elsewhere : Str → Resource → Str → Dict Lease → Bool
held_elsewhere attempt resource fingerprint records =
    any
      (λ (kept : Str × Lease).
        not (kept.0 == attempt)
        && any
            (λ (other : Entry).
              shareable resource other.resource && other.fingerprint == some fingerprint)
            kept.1.entries)
      records

abbrev pub set_phase : Phase → Bool → Lease → Lease
set_phase p u lease = record lease { phase = p; uncertain = u }

abbrev pub with_fingerprint : Option Str → Entry → Entry
with_fingerprint f entry = record entry { fingerprint = f }

abbrev pub modify_at : ℕ → (Entry → Entry) → List Entry → List Entry
modify_at i f [] = []
modify_at zero f (entry ∷ entries) = f entry ∷ entries
modify_at (suc i) f (entry ∷ entries) = entry ∷ modify_at i f entries

-- `entries[index].fingerprint = f`
abbrev pub set_fingerprint : ℕ → Option Str → Lease → Lease
set_fingerprint index f lease = record lease {
  entries = modify_at index (with_fingerprint f) lease.entries;
}

abbrev pub entry_at : Str → ℕ → Snapshot → Option Entry
entry_at attempt index s = elim (lookup attempt s.records) [
  | none ↦ none
  | some lease ↦ get_elem? lease.entries index
]

-- The lease that `prepare` inserts.
abbrev pub fresh_lease : Plan → List Entry → Lease
fresh_lease plan entries = record {
  plan = plan;
  phase = prepared;
  uncertain = false;
  entries = entries;
}

-- The entry that `prepare` records for one resource.
abbrev pub new_entry : Resource → Option Str → Dict Lease → Entry
new_entry resource existing records = record {
  resource = resource;
  fingerprint = existing;
  borrowed = is_some existing && not (created_by_owner resource existing records);
}
