-- ===== src/Network/Apply/Creates.antt =====
-- `Coordinator::apply` creates a resource only where the backend has just reported its absence: a
-- resource of somebody else is never overwritten.
use openfortivpn.Base.{none, zero, suc, ap, ◌∙◌, Option-cases, inl, inr, ◌≡◌, ℕ, ◌+◌}
use openfortivpn.Base.Error.{Result-cases, ok, Result, recovery_required}
use openfortivpn.Network.Monad.{
  ◌>>=◌, continue, Backend, M, update, Journal, call, on_result, choose, pure,
}
use openfortivpn.Network.Keeps.{
  Keeps, keeps_rules, Keeps-pure, Keeps-bind, Keeps-gets, Keeps-on_option, Keeps-fail,
}
use openfortivpn.Network.Model.{Snapshot, Resource, Entry}
use openfortivpn.Network.Journaled.{save, try_save, failed}
use openfortivpn.Network.Apply.{
  share, create, Entry, on_result, choose, valid_fingerprint, pure, obtain, apply_entry,
  apply_entries, activate, apply_lease, apply, entry_at,
}
use openfortivpn.Base.Text.{Str}
use openfortivpn.Network.Leases.{valid_fingerprint, entry_at}

-- A property of the world that inspecting and journalling keep, and that creating keeps where the
-- inspection just before it has answered that there is nothing.
pub record KeptByCreation {W : Type 0} (backend : Backend W) (journal : Journal W) (Q : W → Type 0)
    : Type 0 where
  pub inspected : (r : Resource) (w : W) → Q w → Q (backend.inspect r w).1
  pub journalled : (s : Snapshot) (w : W) → Q w → Q (journal.save s w).1
  pub created :
      (r : Resource) (w : W)
      → (backend.inspect r w).0 ≡ ok none
      → Q (backend.inspect r w).1
      → Q (backend.apply r (backend.inspect r w).1).1

abbrev KeepsWorld : {W A : Type 0} → (W → Type 0) → M W A → Type 0
KeepsWorld Q m = Keeps (λ s w. Q w) m

module _ {W : Type 0} (Q : W → Type 0) where
  update-KeepsWorld : (f : Snapshot → Snapshot) → KeepsWorld Q (update f)
  unfolding update
  update-KeepsWorld f = record { at = λ s w h. h }

module _ {W : Type 0} (backend : Backend W) (journal : Journal W) (Q : W → Type 0)
    (kept : KeptByCreation backend journal Q) where
  inspect-KeepsWorld : (r : Resource) → KeepsWorld Q (call (backend.inspect r))
  unfolding call
  inspect-KeepsWorld r = record { at = λ s w h. kept.inspected r w h }

  save-KeepsWorld : KeepsWorld Q (save journal)
  unfolding save
  save-KeepsWorld = record { at = λ s w h. kept.journalled s w h }

  try_save-KeepsWorld : KeepsWorld Q (try_save journal)
  unfolding try_save
  try_save-KeepsWorld = record { at = λ s w h. kept.journalled s w h }

  ruleset world_rules =
      (keeps_rules, update-KeepsWorld, inspect-KeepsWorld, save-KeepsWorld, try_save-KeepsWorld)

  failed-KeepsWorld : (A : Type 0) (attempt : Str) → KeepsWorld Q (failed journal {A = A} attempt)
  unfolding failed
  failed-KeepsWorld A attempt = search world_rules depth 7

  share-KeepsWorld :
      (attempt : Str) (entry other : Entry)
      → KeepsWorld Q (share backend journal attempt entry other)
  unfolding share
  share-KeepsWorld attempt entry other = search (world_rules, failed-KeepsWorld) depth 7

  accept-KeepsWorld :
      (attempt : Str) (r : Result Str)
      → KeepsWorld Q (
          on_result r
            (λ _. failed journal attempt)
            (λ id. choose (valid_fingerprint id) (pure id) (failed journal attempt)))
  accept-KeepsWorld attempt r = search (world_rules, failed-KeepsWorld) depth 7

  create-KeepsWorld :
      (attempt : Str) (entry : Entry) → KeepsWorld Q (create backend journal attempt entry)
  unfolding create ◌>>=◌
  create-KeepsWorld attempt entry = record {
    at = λ s w h.
        let r = entry.resource in
        let w' = (backend.inspect r w).1 in
        elim (Result-cases (backend.inspect r w).0) [
          | inr (x, e) ↦ rw (e, continue) (kept.inspected r w h)
          | inl (current, e) ↦ elim (Option-cases current) [
            | inl absent ↦
                rw (e, continue, absent, choose)
                  ((accept-KeepsWorld attempt (backend.apply r w').0).at s (backend.apply r w').1
                    (kept.created r w (e ∙ ap ok absent) (kept.inspected r w h)))
            | inr (found, f) ↦
                rw (e, continue, f, choose)
                  ((failed-KeepsWorld Str attempt).at s w' (kept.inspected r w h))
          ]
        ];
  }

  obtain-KeepsWorld :
      (attempt : Str) (entry : Entry) → KeepsWorld Q (obtain backend journal attempt entry)
  unfolding obtain
  obtain-KeepsWorld attempt entry = search (world_rules, share-KeepsWorld, create-KeepsWorld)

  apply_entry-KeepsWorld :
      (attempt : Str) (index : ℕ) (entry : Entry)
      → KeepsWorld Q (apply_entry backend journal attempt index entry)
  unfolding apply_entry
  apply_entry-KeepsWorld attempt index entry =
      search (world_rules, failed-KeepsWorld, obtain-KeepsWorld) depth 7

  apply_entries-KeepsWorld :
      (attempt : Str) (rounds index : ℕ)
      → KeepsWorld Q (apply_entries backend journal attempt rounds index)
  unfolding apply_entries
  apply_entries-KeepsWorld attempt zero index = Keeps-pure tt
  apply_entries-KeepsWorld attempt (suc rounds) index =
      Keeps-bind _ _ (Keeps-gets (entry_at attempt index)) λ found.
        Keeps-bind _ _
          (Keeps-on_option found _ _ (Keeps-fail recovery_required)
            λ entry e. apply_entry-KeepsWorld attempt index entry)
          (λ u. apply_entries-KeepsWorld attempt rounds (index + 1))

  activate-KeepsWorld : (attempt : Str) → KeepsWorld Q (activate backend journal attempt)
  unfolding activate
  activate-KeepsWorld attempt = search world_rules depth 7

  apply_lease-KeepsWorld :
      (attempt : Str) (count : ℕ) → KeepsWorld Q (apply_lease backend journal attempt count)
  unfolding apply_lease
  apply_lease-KeepsWorld attempt count =
      search (world_rules, apply_entries-KeepsWorld, activate-KeepsWorld) depth 7

  apply-KeepsWorld : (attempt : Str) → KeepsWorld Q (apply backend journal attempt)
  unfolding apply
  apply-KeepsWorld attempt = search (world_rules, apply_lease-KeepsWorld) depth 7

  -- Whatever inspecting and journalling keep, and creating an absent resource keeps, apply keeps,
  -- whether it returns or fails: it makes no other use of the backend, and never creates a resource
  -- that the inspection just before has found.
  pub apply_creates_absent :
      (attempt : Str) (s : Snapshot) (w : W) → Q w → Q (apply backend journal attempt s w).2
  apply_creates_absent attempt s w h = (apply-KeepsWorld attempt).at s w h
