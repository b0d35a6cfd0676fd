-- ===== src/Network/Release/Owned.antt =====
-- `Coordinator::release` removes only what the attempt has created itself and what the backend has
-- just reported unchanged.
use mathlib.Core.List.{Memᴰ}
use openfortivpn.Base.{
  some, true, false, refl, ap, ◌∙◌, Bool-cases, Option-cases, inl, inr, ◌≡◌, ℕ, Bool, ◌==◌, List,
  ◌∷◌, ◌+◌, [],
}
use openfortivpn.Base.Error.{Result-cases, ok, Result}
use openfortivpn.Network.Monad.{
  ◌>>=◌, Backend, M, update, Journal, attempt_call, on_result, choose, pure, on_option,
}
use openfortivpn.Network.Model.{Lease, Entry, Snapshot, Resource}
use openfortivpn.Network.Keeps.{
  Keeps, keeps_rules, Keeps-pure, Keeps-choose, Keeps-on_option, Keeps-bind, Keeps-gets,
}
use openfortivpn.Base.Text.{Str, str_beq_iff, str_equality}
use openfortivpn.Network.Journaled.{save, try_save, failed}
use openfortivpn.Network.Release.{
  clear_entry, withdraw, release_entry, withdraw_current, release_entries, drop_lease,
  release_lease, release, is_uncertain,
}
use openfortivpn.Base.Dict.{lookup}
use openfortivpn.Network.Leases.{held_elsewhere}

-- The lease records that this attempt has created the resource of the entry, as `f`.
abbrev pub Owned : Lease → Entry → Str → Type 0
Owned lease entry f =
    Memᴰ entry lease.entries × (entry.borrowed ≡ false) × (entry.fingerprint ≡ some f)

-- A property of the world that inspecting and journalling keep, and that removing keeps where the
-- lease owns the resource and the inspection just before has answered its fingerprint.
pub record KeptByRemoval {W : Type 0} (backend : Backend W) (journal : Journal W) (lease : Lease)
    (Q : W → Type 0) : Type 0 where
  pub inspected : (r : Resource) (w : W) → Q w → Q (backend.inspect r w).1
  pub journalled : (s : Snapshot) (w : W) → Q w → Q (journal.save s w).1
  pub removed :
      (entry : Entry) (f : Str) (w : W)
      → Owned lease entry f
      → (backend.inspect entry.resource w).0 ≡ ok (some f)
      → Q (backend.inspect entry.resource w).1
      → Q (backend.remove entry.resource f (backend.inspect entry.resource w).1).1

abbrev KeepsWorld : {W A : Type 0} → (W → Type 0) → M W A → Type 0
KeepsWorld Q m = Keeps (λ s w. Q w) m

module _ {W : Type 0} (Q : W → Type 0) where
  update-KeepsWorld : (f : Snapshot → Snapshot) → KeepsWorld Q (update f)
  unfolding update
  update-KeepsWorld f = record { at = λ s w h. h }

module _ {W : Type 0} (backend : Backend W) (journal : Journal W) (lease : Lease) (Q : W → Type 0)
    (kept : KeptByRemoval backend journal lease Q) where
  inspect-KeepsWorld : (r : Resource) → KeepsWorld Q (attempt_call (backend.inspect r))
  unfolding attempt_call
  inspect-KeepsWorld r = record { at = λ s w h. kept.inspected r w h }

  save-KeepsWorld : KeepsWorld Q (save journal)
  unfolding save
  save-KeepsWorld = record { at = λ s w h. kept.journalled s w h }

  try_save-KeepsWorld : KeepsWorld Q (try_save journal)
  unfolding try_save
  try_save-KeepsWorld = record { at = λ s w h. kept.journalled s w h }

  ruleset world_rules =
      (keeps_rules, update-KeepsWorld, inspect-KeepsWorld, save-KeepsWorld, try_save-KeepsWorld)

  failed-KeepsWorld : (A : Type 0) (attempt : Str) → KeepsWorld Q (failed journal {A = A} attempt)
  unfolding failed
  failed-KeepsWorld A attempt = search world_rules depth 7

  clear_entry-KeepsWorld :
      (attempt : Str) (index : ℕ) (failing : Bool)
      → KeepsWorld Q (clear_entry backend journal attempt index failing)
  unfolding clear_entry
  clear_entry-KeepsWorld attempt index failing = search world_rules depth 7

  after_removal-KeepsWorld :
      (attempt : Str) (index : ℕ) (failing : Bool) (r : Result (Unit {0}))
      → KeepsWorld Q
          (on_result r (λ _. pure true) (λ _. clear_entry backend journal attempt index failing))
  after_removal-KeepsWorld attempt index failing r =
      search (world_rules, clear_entry-KeepsWorld) depth 7

  withdraw-KeepsWorld :
      (attempt : Str) (index : ℕ) (entry : Entry) (f : Str) (failing : Bool)
      → Owned lease entry f
      → KeepsWorld Q (withdraw backend journal attempt index entry f failing)
  unfolding withdraw withdraw_current ◌>>=◌
  withdraw-KeepsWorld attempt index entry f failing owned = record {
    at = λ s w h.
        let r = entry.resource in
        let w' = (backend.inspect r w).1 in
        let h' = kept.inspected r w h in
        elim (Result-cases (backend.inspect r w).0) [
          | inr (x, e) ↦ rw (e, on_result) h'
          | inl (existing, e) ↦ elim (Option-cases existing) [
            | inl absent ↦
                rw (e, on_result, absent, on_option)
                  ((clear_entry-KeepsWorld attempt index failing).at s w' h')
            | inr (current, g) ↦ elim (Bool-cases (current == f)) [
              | inl same ↦
                  let is_ours : existing ≡ some f = g ∙ ap some ((str_beq_iff current f).0 same) in
                  rw (e, on_result, g, on_option, same, choose)
                    ((after_removal-KeepsWorld attempt index failing (backend.remove r f w').0).at s
                      (backend.remove r f w').1
                      (kept.removed entry f w owned (e ∙ ap ok is_ours) h'))
              | inr other ↦ rw (e, on_result, g, on_option, other, choose) h'
            ]
          ]
        ];
  }

  release_entry-KeepsWorld :
      (attempt : Str) (uncertain : Bool) (index : ℕ) (entry : Entry) (failing : Bool)
      → Memᴰ entry lease.entries
      → KeepsWorld Q (release_entry backend journal attempt uncertain index entry failing)
  unfolding release_entry
  release_entry-KeepsWorld attempt uncertain index entry failing m =
      Keeps-choose entry.borrowed _ _ (λ b. Keeps-pure failing)
        λ ours. Keeps-on_option entry.fingerprint _ _ (search world_rules depth 7) λ f e.
          Keeps-bind _ _ (Keeps-gets (λ s. held_elsewhere attempt entry.resource f s.records))
            λ shared.
              Keeps-choose shared _ _ (λ b. Keeps-pure failing)
                λ alone. withdraw-KeepsWorld attempt index entry f failing (m, ours, e)

  release_entries-KeepsWorld :
      (attempt : Str) (uncertain : Bool) (index : ℕ) (entries : List Entry)
      → ((entry : Entry) → Memᴰ entry entries → Memᴰ entry lease.entries)
      → KeepsWorld Q (release_entries backend journal attempt uncertain index entries)
  unfolding release_entries
  release_entries-KeepsWorld attempt uncertain index [] sub = Keeps-pure false
  release_entries-KeepsWorld attempt uncertain index (entry ∷ entries) sub =
      Keeps-bind _ _
        (release_entries-KeepsWorld attempt uncertain (index + 1) entries
          (λ x m. sub x (Memᴰ.tail m)))
        λ failing.
          release_entry-KeepsWorld attempt uncertain index entry failing
            (sub entry (Memᴰ.head refl))

  drop_lease-KeepsWorld : (attempt : Str) → KeepsWorld Q (drop_lease backend journal attempt)
  unfolding drop_lease
  drop_lease-KeepsWorld attempt = search world_rules depth 9

  release_lease-KeepsWorld :
      (attempt : Str) → KeepsWorld Q (release_lease backend journal attempt lease)
  unfolding release_lease
  release_lease-KeepsWorld attempt =
      Keeps-bind _ _
        (Keeps-bind _ _ (Keeps-bind _ _ (update-KeepsWorld Q _) (λ u. save-KeepsWorld))
          λ u. release_entries-KeepsWorld attempt (is_uncertain lease) 0 lease.entries (λ x m. m))
        λ failing.
          Keeps-choose failing _ _ (λ b. failed-KeepsWorld (Unit {0}) attempt)
            (λ b. drop_lease-KeepsWorld attempt)

-- For the lease that the attempt holds: whatever inspecting and journalling keep, and removing a
-- resource keeps that the lease owns and that the inspection just before has found with the
-- recorded fingerprint, release keeps, whether it returns or fails. Borrowed and foreign resources
-- are never removed.
pub release_removes_owned :
    {W : Type 0} (backend : Backend W) (journal : Journal W) (Q : W → Type 0) (attempt : Str)
    (s : Snapshot) (w : W) (lease : Lease)
    → lookup attempt s.records ≡ some lease
    → KeptByRemoval backend journal lease Q
    → Q w
    → Q (release backend journal attempt s w).2
unfolding release ◌>>=◌
release_removes_owned backend journal Q attempt s w lease e kept h =
    rw (e, on_option) ((release_lease-KeepsWorld backend journal lease Q kept attempt).at s w h)
