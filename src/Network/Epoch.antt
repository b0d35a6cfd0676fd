-- ===== src/Network/Epoch.antt =====
-- What a change of the network and a restart leave of the leases.
use openfortivpn.Base.{
  refl, arith, ◌≡◌, some, none, false, inl, inr, if◌then◌else◌, ◌<◌, ◌≤◌, u64_max, saturating_add,
  ap, is_some, ◌==◌,
}
use openfortivpn.Base.Error.{Result-cases, is_ok}
use openfortivpn.Network.Monad.{Journal, ◌>>=◌, continue}
use openfortivpn.Network.Model.{
  Plan, BackendCapabilities, Snapshot, needs_recovery, applying, phase_equality, Lease,
}
use openfortivpn.Network.Journaled.{network_changed}
use openfortivpn.Network.Leases.{preview, phase, plan, from_snapshot, recovered_lease, interrupted}
use openfortivpn.Network.Journaled.{save}
use openfortivpn.Base.Text.{Str}
use openfortivpn.Base.Dict.{map_values, lookup, lookup-map_values}

module _ {W : Type 0} (journal : Journal W) where
  changed_snapshot :
      (s : Snapshot) (w : W)
      → (network_changed journal s w).1 ≡ record s {
        network_epoch = saturating_add s.network_epoch 1;
        records = map_values recovered_lease s.records;
      }
  unfolding network_changed ◌>>=◌ save
  changed_snapshot s w =
      let t : Snapshot = record s {
        network_epoch = saturating_add s.network_epoch 1;
        records = map_values recovered_lease s.records;
      } in
      elim (Result-cases (journal.save t w).0) [
        | inl (u, e) ↦ rw (e, continue) refl
        | inr (c, e) ↦ rw (e, continue) refl
      ]

  -- After a change of the network, whether or not the journal stores it, every plan of an earlier
  -- epoch is refused, as long as the epoch has not reached its last value before.
  pub changed_refuses :
      (p : Plan) (caps : BackendCapabilities) (s : Snapshot) (w : W)
      → p.network_epoch ≤ s.network_epoch
      → s.network_epoch < u64_max
      → is_ok (preview p caps (network_changed journal s w).1) ≡ false
  unfolding preview saturating_add
  changed_refuses p caps s w old room =
      ground (arith, ap (λ (t : Snapshot). t.network_epoch) (changed_snapshot s w))

  -- After a change of the network, whether or not the journal stores it, every lease needs recovery
  -- and none is lost: no lease counts as active on the new network.
  pub changed_needs_recovery :
      (attempt : Str) (s : Snapshot) (w : W)
      → phase attempt (network_changed journal s w).1
        ≡ (if is_some (lookup attempt s.records) then some needs_recovery else none)
  unfolding phase
  changed_needs_recovery attempt s w = ground (
    arith,
    ap (λ (t : Snapshot). lookup attempt t.records) (changed_snapshot s w),
    lookup-map_values recovered_lease attempt s.records,
  )

-- A restart keeps every plan, turns an interrupted apply into a lease that needs recovery, and
-- leaves the phase of every other lease.
pub restart_settles :
    (attempt : Str) (s : Snapshot) (lease : Lease)
    → lookup attempt s.records ≡ some lease
    → (plan attempt (from_snapshot s) ≡ some lease.plan)
      × (phase attempt (from_snapshot s)
          ≡ some (if lease.phase == applying then needs_recovery else lease.phase))
unfolding plan phase from_snapshot
restart_settles attempt s lease e =
    let found = lookup-map_values interrupted attempt s.records in
    (ground (arith, found), ground (arith, found))
