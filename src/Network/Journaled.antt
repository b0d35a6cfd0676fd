-- ===== src/Network/Journaled.antt =====
-- `save`, `failed` and `network_changed` of crates/manager-core/src/network.rs.
use openfortivpn.Base.{ℕ, nat_equality, option_equality, saturating_add}
use openfortivpn.Base.Text.{Str, str_equality}
use openfortivpn.Base.Dict.{map_values}
use openfortivpn.Base.Error.{Result, ok, recovery_required}
use openfortivpn.Network.Model.{needs_recovery, plan_equality, phase_equality}
use openfortivpn.Network.Monad.{Journal, M, ◌>>◌, fail, gets, update}
use openfortivpn.Network.Leases.{modify_lease, recovered_lease}

module _ {W : Type 0} (journal : Journal W) where
  -- `journal.save(&self.snapshot)`, its error passed on by `?`
  unfoldable pub save : M W (Unit {0})
  save s w = let (r, w') = journal.save s w in (r, s, w')

  -- `journal.save(&self.snapshot)`, its error a value
  unfoldable pub try_save : M W (Result (Unit {0}))
  try_save s w = let (r, w') = journal.save s w in (ok r, s, w')

  -- `Coordinator::network_changed`
  unfoldable pub network_changed : M W ℕ
  network_changed =
      update (λ s. record s {
        network_epoch = saturating_add s.network_epoch 1;
        records = map_values recovered_lease s.records;
      })
      >> save
      >> gets (λ s. s.network_epoch)

  -- `Coordinator::failed`
  unfoldable pub failed : {A : Type 0} → Str → M W A
  failed attempt =
      update (modify_lease attempt (λ lease. record lease { phase = needs_recovery }))
      >> save
      >> fail recovery_required
