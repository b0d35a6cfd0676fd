-- ===== src/Network/Prepare.antt =====
-- `Coordinator::prepare` of crates/manager-core/src/network.rs.
pub mod Outcome
use openfortivpn.Base.{List, [], ◌∷◌, ◌==◌, nat_equality, option_equality, is_some, length}
use openfortivpn.Base.Text.{str_equality}
use openfortivpn.Base.Dict.{lookup, insert, remove}
use openfortivpn.Base.Error.{network_conflict, recovery_required, reject_if}
use openfortivpn.Network.Model.{
  Resource, Plan, BackendCapabilities, Entry, plan_equality, phase_equality,
}
use openfortivpn.Network.Monad.{
  Backend, Journal, M, ◌>>=◌, ◌>>◌, pure, fail, lift, gets, call, update, on_result, choose,
}
use openfortivpn.Network.Leases.{preview, bad_fingerprint, fresh_lease, new_entry}
use openfortivpn.Network.Journaled.{try_save}

module _ {W : Type 0} (backend : Backend W) (journal : Journal W) where
  unfoldable pub prepare_entry : Resource → M W Entry
  prepare_entry resource = call (backend.inspect resource) >>= λ existing.
      lift (reject_if (bad_fingerprint existing) recovery_required)
      >> gets (λ s. new_entry resource existing s.records)

  -- The loop of `prepare`.
  unfoldable pub prepare_entries : List Resource → M W (List Entry)
  prepare_entries [] = pure []
  prepare_entries (resource ∷ resources) = prepare_entry resource >>= λ entry.
      prepare_entries resources >>= λ entries. pure (entry ∷ entries)

  -- The insertion at the end of `prepare`, undone where the journal refuses it.
  unfoldable pub record_lease : Plan → List Entry → M W (Unit {0})
  record_lease plan entries =
      update
        (λ s. record s { records = insert plan.attempt_id (fresh_lease plan entries) s.records })
      >> try_save journal
      >>= λ r.
          on_result r
            (λ e. update (λ s. record s { records = remove plan.attempt_id s.records }) >> fail e)
            (λ _. pure tt)

  -- `Coordinator::prepare`
  unfoldable pub prepare : Plan → BackendCapabilities → M W (Unit {0})
  prepare plan caps =
      gets (preview plan caps)
      >>= lift
      >> gets (λ s. is_some (lookup plan.attempt_id s.records))
      >>= λ present. choose present (pure tt) (
          gets (λ s. length s.records == 512) >>= λ full.
          choose full (fail network_conflict)
            (prepare_entries plan.resources >>= record_lease plan))
