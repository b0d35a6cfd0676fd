-- ===== src/Network/Apply.antt =====
-- `Coordinator::apply` of crates/manager-core/src/network.rs.
pub mod Phases
pub mod Creates
use openfortivpn.Base.{
  ℕ, zero, suc, ◌+◌, true, false, not, some, ◌==◌, nat_equality, option_equality, is_some, length,
}
use openfortivpn.Base.Text.{Str, str_equality}
use openfortivpn.Base.Dict.{lookup}
use openfortivpn.Base.Error.{recovery_required}
use openfortivpn.Network.Model.{
  prepared, applying, active, needs_recovery, Entry, plan_equality, phase_equality,
}
use openfortivpn.Network.Monad.{
  Backend, Journal, M, ◌>>=◌, ◌>>◌, pure, fail, gets, call, attempt_call, update, on_option,
  on_result, choose,
}
use openfortivpn.Network.Leases.{
  modify_lease, set_phase, set_fingerprint, entry_at, valid_fingerprint, shared_creation,
}
use openfortivpn.Network.Journaled.{save, try_save, failed}

module _ {W : Type 0} (backend : Backend W) (journal : Journal W) where
  -- The fingerprint of a resource that another lease has created. A creation with no fingerprint
  -- (`unwrap` panics) is answered by an error.
  unfoldable pub share : Str → Entry → Entry → M W Str
  share attempt entry other = call (backend.inspect entry.resource) >>= λ current.
      choose (not (current == other.fingerprint)) (failed journal attempt)
        (on_option other.fingerprint (fail recovery_required) pure)

  -- The fingerprint of a resource that this attempt creates.
  unfoldable pub create : Str → Entry → M W Str
  create attempt entry = call (backend.inspect entry.resource) >>= λ current.
      choose (is_some current) (failed journal attempt) (
        attempt_call (backend.apply entry.resource) >>= λ r.
        on_result r (λ _. failed journal attempt)
          (λ id. choose (valid_fingerprint id) (pure id) (failed journal attempt)))

  unfoldable pub obtain : Str → Entry → M W Str
  obtain attempt entry = gets (λ s. shared_creation attempt entry.resource s.records) >>= λ shared.
      on_option shared (create attempt entry) (share attempt entry)

  -- The body of the loop in `apply`.
  unfoldable pub apply_entry : Str → ℕ → Entry → M W (Unit {0})
  apply_entry attempt index entry =
      choose entry.borrowed
        (call (backend.inspect entry.resource) >>= λ current.
          choose (current == entry.fingerprint) (pure tt) (failed journal attempt))
        (obtain attempt entry >>= λ f.
          update (modify_lease attempt (set_fingerprint index (some f))) >> save journal)

  -- The loop of `apply`, by the rounds left. An index out of range does not occur: the rounds are
  -- the entries of the lease, whose number no round changes.
  unfoldable pub apply_entries : Str → ℕ → ℕ → M W (Unit {0})
  apply_entries attempt zero index = pure tt
  apply_entries attempt (suc rounds) index = gets (entry_at attempt index) >>= λ found.
      on_option found (fail recovery_required) (apply_entry attempt index)
      >> apply_entries attempt rounds (index + 1)

  -- The end of `apply`.
  unfoldable pub activate : Str → M W (Unit {0})
  activate attempt =
      update (modify_lease attempt (set_phase active false)) >> try_save journal >>= λ r.
      on_result r (λ e. update (modify_lease attempt (set_phase needs_recovery true)) >> fail e)
        (λ _. pure tt)

  -- `Coordinator::apply` past its guards.
  unfoldable pub apply_lease : Str → ℕ → M W (Unit {0})
  apply_lease attempt count =
      update (modify_lease attempt (set_phase applying true))
      >> save journal
      >> apply_entries attempt count 0
      >> activate attempt

  -- `Coordinator::apply`
  unfoldable pub apply : Str → M W (Unit {0})
  apply attempt = gets (λ s. lookup attempt s.records) >>= λ found.
      on_option found (fail recovery_required) (λ lease. choose (lease.phase == active) (pure tt) (
        choose (not (lease.phase == prepared)) (fail recovery_required)
          (apply_lease attempt (length lease.entries))))
