-- ===== src/Network/Closed.antt =====
-- Apply and the entries of release keep every property that their steps keep: changes of a lease that
-- leave its plan, calls of the backend, and saves.
use openfortivpn.Base.{refl, List, suc, false, ◌+◌, ◌∷◌, zero, []}
use openfortivpn.Network.Model.{Snapshot, Lease, Phase, Entry, Resource, needs_recovery}
use openfortivpn.Network.Leases.{modify_lease, set_phase, set_fingerprint, entry_at}
use openfortivpn.Network.Keeps.{
  keeps_rules, Keeps, Keeps-bind, Keeps-fail, Keeps-pure, Keeps-gets, Keeps-on_option,
}
use openfortivpn.Base.Text.{Str}
use openfortivpn.Base.{◌≡◌, ℕ, Bool, Option}
use openfortivpn.Network.Monad.{call, attempt_call, update, Backend, Journal}
use openfortivpn.Base.Error.{recovery_required}
use openfortivpn.Network.Journaled.{save, try_save, failed}
use openfortivpn.Network.Apply.{
  share, create, obtain, apply_entry, apply_entries, activate, apply_lease, apply,
}
use openfortivpn.Network.Release.{
  clear_entry, withdraw_current, withdraw, release_entry, release_entries,
}

-- What the steps keep.
pub record IsClosed {W : Type 0} (P : Snapshot → W → Type 0) (backend : Backend W)
    (journal : Journal W) : Type 0 where
  pub modifying :
      (attempt : Str) (f : Lease → Lease) (s : Snapshot) (w : W)
      → ((lease : Lease) → (f lease).plan ≡ lease.plan)
      → P s w
      → P (modify_lease attempt f s) w
  pub inspecting : (r : Resource) (s : Snapshot) (w : W) → P s w → P s (backend.inspect r w).1
  pub applying_it : (r : Resource) (s : Snapshot) (w : W) → P s w → P s (backend.apply r w).1
  pub removing :
      (r : Resource) (f : Str) (s : Snapshot) (w : W) → P s w → P s (backend.remove r f w).1
  pub saving : (s : Snapshot) (w : W) → P s w → P s (journal.save s w).1

module _ {W : Type 0} {P : Snapshot → W → Type 0} (backend : Backend W) (journal : Journal W)
    (closed : IsClosed P backend journal) where
  pub inspect-Closed : (r : Resource) → Keeps P (call (backend.inspect r))
  unfolding call
  inspect-Closed r = record { at = λ s w h. closed.inspecting r s w h }

  pub try_inspect-Closed : (r : Resource) → Keeps P (attempt_call (backend.inspect r))
  unfolding attempt_call
  try_inspect-Closed r = record { at = λ s w h. closed.inspecting r s w h }

  try_apply-Closed : (r : Resource) → Keeps P (attempt_call (backend.apply r))
  unfolding attempt_call
  try_apply-Closed r = record { at = λ s w h. closed.applying_it r s w h }

  try_remove-Closed : (r : Resource) (f : Str) → Keeps P (attempt_call (backend.remove r f))
  unfolding attempt_call
  try_remove-Closed r f = record { at = λ s w h. closed.removing r f s w h }

  modify_lease-Closed :
      (attempt : Str) (f : Lease → Lease)
      → ((lease : Lease) → (f lease).plan ≡ lease.plan)
      → Keeps P (update (modify_lease attempt f))
  unfolding update
  modify_lease-Closed attempt f k = record { at = λ s w h. closed.modifying attempt f s w k h }

  pub phase-Closed :
      (attempt : Str) (p : Phase) (u : Bool)
      → Keeps P (update (modify_lease attempt (set_phase p u)))
  phase-Closed attempt p u = modify_lease-Closed attempt (set_phase p u) (λ lease. refl)

  fingerprint-Closed :
      (attempt : Str) (index : ℕ) (f : Option Str)
      → Keeps P (update (modify_lease attempt (set_fingerprint index f)))
  fingerprint-Closed attempt index f =
      modify_lease-Closed attempt (set_fingerprint index f) (λ lease. refl)

  pub save-Closed : Keeps P (save journal)
  unfolding save
  save-Closed = record { at = λ s w h. closed.saving s w h }

  try_save-Closed : Keeps P (try_save journal)
  unfolding try_save
  try_save-Closed = record { at = λ s w h. closed.saving s w h }

  pub failed-Closed : (A : Type 0) (attempt : Str) → Keeps P (failed journal {A = A} attempt)
  unfolding failed
  failed-Closed A attempt =
      Keeps-bind _ _
        (Keeps-bind _ _
          (modify_lease-Closed attempt (λ lease. record lease { phase = needs_recovery })
            (λ lease. refl))
          (λ u. save-Closed))
        (λ u. Keeps-fail _)

  ruleset step_rules = (
    keeps_rules, inspect-Closed, try_inspect-Closed, try_apply-Closed, try_remove-Closed,
    phase-Closed, fingerprint-Closed, save-Closed, try_save-Closed, failed-Closed,
  )

  share-Closed :
      (attempt : Str) (entry other : Entry) → Keeps P (share backend journal attempt entry other)
  unfolding share
  share-Closed attempt entry other = search step_rules

  create-Closed : (attempt : Str) (entry : Entry) → Keeps P (create backend journal attempt entry)
  unfolding create
  create-Closed attempt entry = search step_rules depth 8

  obtain-Closed : (attempt : Str) (entry : Entry) → Keeps P (obtain backend journal attempt entry)
  unfolding obtain
  obtain-Closed attempt entry = search (step_rules, share-Closed, create-Closed)

  apply_entry-Closed :
      (attempt : Str) (index : ℕ) (entry : Entry)
      → Keeps P (apply_entry backend journal attempt index entry)
  unfolding apply_entry
  apply_entry-Closed attempt index entry = search (step_rules, obtain-Closed) depth 7

  pub apply_entries-Closed :
      (attempt : Str) (rounds index : ℕ)
      → Keeps P (apply_entries backend journal attempt rounds index)
  unfolding apply_entries
  apply_entries-Closed attempt zero index = Keeps-pure tt
  apply_entries-Closed attempt (suc rounds) index =
      Keeps-bind _ _ (Keeps-gets (entry_at attempt index)) λ found.
        Keeps-bind _ _
          (Keeps-on_option found _ _ (Keeps-fail recovery_required)
            λ entry e. apply_entry-Closed attempt index entry)
          (λ u. apply_entries-Closed attempt rounds (index + 1))

  activate-Closed : (attempt : Str) → Keeps P (activate backend journal attempt)
  unfolding activate
  activate-Closed attempt = search step_rules depth 7

  apply_lease-Closed :
      (attempt : Str) (count : ℕ) → Keeps P (apply_lease backend journal attempt count)
  unfolding apply_lease
  apply_lease-Closed attempt count =
      search (step_rules, apply_entries-Closed, activate-Closed) depth 7

  pub apply-Closed : (attempt : Str) → Keeps P (apply backend journal attempt)
  unfolding apply
  apply-Closed attempt = search (step_rules, apply_lease-Closed) depth 7

  clear_entry-Closed :
      (attempt : Str) (index : ℕ) (failing : Bool)
      → Keeps P (clear_entry backend journal attempt index failing)
  unfolding clear_entry
  clear_entry-Closed attempt index failing = search step_rules depth 7

  withdraw_current-Closed :
      (attempt : Str) (index : ℕ) (entry : Entry) (f : Str) (failing : Bool) (current : Str)
      → Keeps P (withdraw_current backend journal attempt index entry f failing current)
  unfolding withdraw_current
  withdraw_current-Closed attempt index entry f failing current =
      search (step_rules, clear_entry-Closed) depth 7

  withdraw-Closed :
      (attempt : Str) (index : ℕ) (entry : Entry) (f : Str) (failing : Bool)
      → Keeps P (withdraw backend journal attempt index entry f failing)
  unfolding withdraw
  withdraw-Closed attempt index entry f failing =
      search (step_rules, clear_entry-Closed, withdraw_current-Closed) depth 7

  release_entry-Closed :
      (attempt : Str) (uncertain : Bool) (index : ℕ) (entry : Entry) (failing : Bool)
      → Keeps P (release_entry backend journal attempt uncertain index entry failing)
  unfolding release_entry
  release_entry-Closed attempt uncertain index entry failing =
      search (step_rules, withdraw-Closed) depth 8

  pub release_entries-Closed :
      (attempt : Str) (uncertain : Bool) (index : ℕ) (entries : List Entry)
      → Keeps P (release_entries backend journal attempt uncertain index entries)
  unfolding release_entries
  release_entries-Closed attempt uncertain index [] = Keeps-pure false
  release_entries-Closed attempt uncertain index (entry ∷ entries) =
      Keeps-bind _ _ (release_entries-Closed attempt uncertain (index + 1) entries)
        (λ failing. release_entry-Closed attempt uncertain index entry failing)
