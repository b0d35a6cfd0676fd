-- ===== src/Network/Release.antt =====
-- `Coordinator::release` of crates/manager-core/src/network.rs.
pub mod Outcome
pub mod Owned
use openfortivpn.Base.{
  ℕ, ◌+◌, Bool, true, false, ◌||◌, List, [], ◌∷◌, Option, none, ◌==◌, nat_equality, option_equality,
}
use openfortivpn.Base.Text.{Str, str_equality}
use openfortivpn.Base.Dict.{lookup, insert, remove}
use openfortivpn.Base.Error.{Result, ok, recovery_required}
use openfortivpn.Network.Model.{
  applying, releasing, needs_recovery, Entry, Lease, plan_equality, phase_equality,
}
use openfortivpn.Network.Monad.{
  Backend, Journal, M, ◌>>=◌, ◌>>◌, pure, fail, gets, attempt_call, update, on_option, on_result,
  choose,
}
use openfortivpn.Network.Leases.{modify_lease, set_phase, set_fingerprint, held_elsewhere}
use openfortivpn.Network.Journaled.{save, try_save, failed}

abbrev is_absent : Result (Option Str) → Bool
is_absent (ok none) = true
is_absent _ = false

abbrev pub is_uncertain : Lease → Bool
is_uncertain lease = lease.uncertain || lease.phase == applying || lease.phase == needs_recovery

module _ {W : Type 0} (backend : Backend W) (journal : Journal W) where
  -- A resource is gone: its fingerprint is cleared.
  unfoldable pub clear_entry : Str → ℕ → Bool → M W Bool
  clear_entry attempt index failing =
      update (modify_lease attempt (set_fingerprint index none)) >> save journal >> pure failing

  -- A resource whose inspection reports `current`: it is removed only if that is our fingerprint.
  unfoldable pub withdraw_current : Str → ℕ → Entry → Str → Bool → Str → M W Bool
  withdraw_current attempt index entry fingerprint failing current =
      choose (current == fingerprint)
        (attempt_call (backend.remove entry.resource fingerprint) >>= λ removed.
          on_result removed (λ _. pure true) (λ _. clear_entry attempt index failing))
        (pure true)

  -- The body of the loop in `release` for a fingerprint that no other lease holds.
  unfoldable pub withdraw : Str → ℕ → Entry → Str → Bool → M W Bool
  withdraw attempt index entry fingerprint failing =
      attempt_call (backend.inspect entry.resource) >>= λ r.
      on_result r (λ _. pure true)
        (λ existing.
          on_option existing (clear_entry attempt index failing)
            (withdraw_current attempt index entry fingerprint failing))

  -- The body of the loop in `release`; the result is the flag `failed`.
  unfoldable pub release_entry : Str → Bool → ℕ → Entry → Bool → M W Bool
  release_entry attempt uncertain index entry failing = choose entry.borrowed (pure failing) (
      on_option entry.fingerprint
        (choose uncertain
          (attempt_call (backend.inspect entry.resource) >>= λ r.
            choose (is_absent r) (pure failing) (pure true))
          (pure failing))
        (λ f. gets (λ s. held_elsewhere attempt entry.resource f s.records) >>= λ shared.
          choose shared (pure failing) (withdraw attempt index entry f failing)))

  -- The loop of `release`: the last entry first.
  unfoldable pub release_entries : Str → Bool → ℕ → List Entry → M W Bool
  release_entries attempt uncertain index [] = pure false
  release_entries attempt uncertain index (entry ∷ entries) =
      release_entries attempt uncertain (index + 1) entries
      >>= release_entry attempt uncertain index entry

  -- The end of `release`: the reservation returns where the journal refuses. That no lease is there
  -- to be removed (`unwrap` panics) does not occur.
  unfoldable pub drop_lease : Str → M W (Unit {0})
  drop_lease attempt = gets (λ s. lookup attempt s.records) >>= λ found.
      on_option found (fail recovery_required) (λ removed.
        update (λ s. record s { records = remove attempt s.records }) >> try_save journal >>= λ r.
        on_result r
          (λ e. update (λ s. record s { records = insert attempt removed s.records }) >> fail e)
          (λ _. pure tt))

  -- `Coordinator::release` of a lease that is there.
  unfoldable pub release_lease : Str → Lease → M W (Unit {0})
  release_lease attempt lease =
      update (modify_lease attempt (set_phase releasing (is_uncertain lease)))
      >> save journal
      >> release_entries attempt (is_uncertain lease) 0 lease.entries
      >>= λ failing. choose failing (failed journal attempt) (drop_lease attempt)

  -- `Coordinator::release`
  unfoldable pub release : Str → M W (Unit {0})
  release attempt = gets (λ s. lookup attempt s.records) >>= λ found.
      on_option found (pure tt) (release_lease attempt)
