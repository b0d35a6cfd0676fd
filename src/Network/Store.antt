-- ===== src/Network/Store.antt =====
-- The journal file and the locked store of the leases: `FileJournal::load` and `LockedStore` of
-- crates/manager-core/src/network.rs. The calls on the directory act on a state `W`.
pub mod Loaded
pub mod Loadable
pub mod Changes
pub mod Saved
pub mod Steps
pub mod Released
pub mod Prepared
pub mod Opened
pub mod Manager
pub mod Operations
use openfortivpn.Base.{
  ℕ, Bool, true, false, not, ◌&&◌, ◌||◌, List, [], ◌∷◌, Option, none, some, ltb, leb, ◌==◌, ◌+◌,
  nat_equality, length, is_empty, if◌then◌else◌,
}
use openfortivpn.Base.Text.{Str, str_equality, lit, starts_with}
use openfortivpn.Base.Error.{Result, ok, err, recovery_required, reject_if}
use openfortivpn.Base.Error
use openfortivpn.Base.Action.{Action, ◌>>=◌, ◌>>◌, done, answer, refuse_if, holding}
use openfortivpn.Network.Model.{
  Resource, Entry, Lease, Snapshot, resource_equality, default_snapshot,
}
use openfortivpn.Network.Leases.{bad_fingerprint, from_snapshot}
use openfortivpn.Network.Validate.{validate}

-- `zip(...).any(...)`: an entry is not for its resource, or has a fingerprint that is none.
unfoldable pub mismatched : List Entry → List Resource → Bool
mismatched (entry ∷ entries) (resource ∷ resources) =
    not (entry.resource == resource)
    || bad_fingerprint entry.fingerprint
    || mismatched entries resources
mismatched _ _ = false

-- The body of the loop in `load`.
unfoldable pub check_record : Str → Lease → Result (Unit {0})
unfolding mismatched
check_record id lease = Error.◌>>◌ (validate lease.plan (record { split_dns = true })) (
    reject_if
      (not (id == lease.plan.attempt_id)
        || not (length lease.entries == length lease.plan.resources)
        || mismatched lease.entries lease.plan.resources)
      recovery_required)

unfoldable pub check_records : List (Str × Lease) → Result (Unit {0})
unfolding check_record
check_records [] = ok tt
check_records ((id, lease) ∷ rest) = Error.◌>>◌ (check_record id lease) (check_records rest)

-- `FileJournal::load` on the decoded snapshot.
unfoldable pub load : Snapshot → Result Snapshot
unfolding check_records
load s =
    Error.◌>>◌
      (reject_if (not (s.schema_version == 1) || ltb 512 (length s.records)) recovery_required)
      (Error.◌>>◌ (check_records s.records) (ok s))

-- The calls on the directory: `exists` is the metadata of the journal, `read_file` reads and decodes
-- it, and a name in the directory may be unreadable.
pub record StoreDirectory (W : Type 0) : Type 0 where
  pub verify : Action W (Unit {0})
  pub lock : (nonblocking : Bool) → Action W (Unit {0})
  pub unlock : W → W
  pub exists : Action W Bool
  pub read_file : Action W Snapshot
  pub read_dir : Action W (List (Option Str))

-- `map_err(|_| recovery())`
abbrev pub as_recovery : {A : Type 0} → Result A → Result A
as_recovery (ok a) = ok a
as_recovery (err e) = err recovery_required

unfoldable pub or_recovery : {W A : Type 0} → Action W A → Action W A
or_recovery m w = let (r, w') = m w in (as_recovery r, w')

-- The loop of `idle_guard`; `count` entries were seen.
unfoldable pub check_idle : ℕ → List (Option Str) → Result (Unit {0})
check_idle count [] = ok tt
check_idle count (none ∷ rest) = err recovery_required
check_idle count (some name ∷ rest) =
    Error.◌>>◌ (reject_if (leb 4096 count || starts_with name (lit "binding-")) recovery_required)
      (check_idle (count + 1) rest)

module _ {W : Type 0} (dir : StoreDirectory W) where
  -- The journal, or an empty snapshot where there is none.
  unfoldable pub stored : Bool → Action W Snapshot
  unfolding or_recovery load
  stored false = done default_snapshot
  stored true = or_recovery dir.read_file >>= λ s. answer (load s)

  -- `LockedStore::open_locked`; the store is the snapshot of its coordinator, and the lock is kept.
  unfoldable pub open_locked : (nonblocking : Bool) → Action W Snapshot
  unfolding or_recovery stored
  open_locked nonblocking =
      or_recovery dir.verify
      >> or_recovery (dir.lock nonblocking)
      >> holding dir.unlock
          (or_recovery dir.exists >>= λ found. stored found >>= λ s. done (from_snapshot s))

  -- The checks of `idle_guard` on an open store.
  unfoldable pub only_idle : Snapshot → Action W Snapshot
  unfolding or_recovery check_idle
  only_idle s =
      refuse_if (not (is_empty s.records)) recovery_required
      >> or_recovery dir.read_dir
      >>= λ names. answer (check_idle 0 names) >> done s

  -- `LockedStore::idle_guard`
  unfoldable pub idle_guard : Action W Snapshot
  unfolding open_locked only_idle
  idle_guard = open_locked true >>= λ s. holding dir.unlock (only_idle s)
