-- ===== src/Network/Apply/Phases.antt =====
-- What the phase of a lease says after `Coordinator::apply`, on every branch.
use openfortivpn.Base.{
  none, some, zero, suc, true, false, arith, Bool-cases, Option-cases, inl, inr, ◌≢◌, ℕ, ◌≡◌,
  Option, Bool, ◌==◌, ◌+◌, length,
}
use openfortivpn.Base.Error.{Result-cases, ok, err, Result, recovery_required}
use openfortivpn.Network.Monad.{
  ◌>>=◌, ◌>>◌, M, call, attempt_call, update, Backend, Journal, on_result, on_option, bind_ok,
  bind_err,
}
use openfortivpn.Base.Text.{Str, str_beq_iff}
use openfortivpn.Network.Leases.{phase, modify_lease, set_phase, plan, set_fingerprint, entry_at}
use openfortivpn.Network.Keeps.{
  keeps_rules, Keeps, Keeps-bind, Keeps-fail, Keeps-pure, Keeps-gets, Keeps-on_option,
}
use openfortivpn.Network.Model.{
  Snapshot, Lease, Phase, active, needs_recovery, Entry, applying, phase_equality, prepared,
}
use openfortivpn.Network.Journaled.{save, failed, try_save}
use openfortivpn.Network.Apply.{
  share, create, obtain, apply_entry, apply_entries, activate, apply_lease, apply, lookup,
  set_fingerprint, Entry, try_save, applying, on_result, on_option, entry_at, phase_equality,
  prepared,
}
use openfortivpn.Network.Plans.{
  KeepsPlans, phase-KeepsPlans, SamePlans, save-KeepsPlans, SamePlans-refl,
  apply_entries-KeepsPlans,
}
use openfortivpn.Base.Dict.{lookup, lookup-modify}

-- The attempt is not reported as active.
abbrev pub IsInactive : Str → Snapshot → Type 0
IsInactive attempt s = phase attempt s ≢ some active

modify_lease-phase :
    (attempt : Str) (f : Lease → Lease) (s : Snapshot)
    → phase attempt (modify_lease attempt f s)
      ≡ (elim (lookup attempt s.records) [ none ↦ none | some lease ↦ some (f lease).phase ])
unfolding phase
modify_lease-phase attempt f s =
    rw (phase, lookup-modify attempt attempt f s.records)
      (ground (arith, str_beq_iff attempt attempt))

abbrev KeepsInactive : {W A : Type 0} → Str → M W A → Type 0
KeepsInactive attempt m = Keeps (λ s w. IsInactive attempt s) m

module _ {W : Type 0} (attempt : Str) where
  call-KeepsInactive : {A : Type 0} (f : W → Result A × W) → KeepsInactive attempt (call f)
  unfolding call
  call-KeepsInactive f = record { at = λ s w h. h }

  attempt_call-KeepsInactive :
      {A : Type 0} (f : W → Result A × W) → KeepsInactive attempt (attempt_call f)
  unfolding attempt_call
  attempt_call-KeepsInactive f = record { at = λ s w h. h }

  fingerprint-KeepsInactive :
      (index : ℕ) (f : Option Str)
      → KeepsInactive {W = W} attempt (update (modify_lease attempt (set_fingerprint index f)))
  unfolding update phase
  fingerprint-KeepsInactive index f = record {
    at = λ s w h. ground (arith, modify_lease-phase attempt (set_fingerprint index f) s);
  }

  -- A phase that is not `active`.
  phase-KeepsInactive :
      (p : Phase) (u : Bool)
      → p ≢ active
      → KeepsInactive {W = W} attempt (update (modify_lease attempt (set_phase p u)))
  unfolding update phase
  phase-KeepsInactive p u ne = record {
    at = λ s w h. ground (arith, modify_lease-phase attempt (set_phase p u) s);
  }

  recovery-KeepsInactive :
      KeepsInactive {W = W} attempt
        (update (modify_lease attempt (λ lease. record lease { phase = needs_recovery })))
  unfolding update phase
  recovery-KeepsInactive = record {
    at = λ s w h.
        ground
          (arith, modify_lease-phase attempt (λ lease. record lease { phase = needs_recovery }) s);
  }

ruleset inactive_rules = (
  keeps_rules, call-KeepsInactive, attempt_call-KeepsInactive, fingerprint-KeepsInactive,
  recovery-KeepsInactive,
)

module _ {W : Type 0} (attempt : Str) (backend : Backend W) (journal : Journal W) where
  save-KeepsInactive : KeepsInactive attempt (save journal)
  unfolding save
  save-KeepsInactive = record { at = λ s w h. h }

  failed-KeepsInactive : (A : Type 0) → KeepsInactive attempt (failed journal {A = A} attempt)
  unfolding failed
  failed-KeepsInactive A =
      Keeps-bind _ _ (Keeps-bind _ _ (recovery-KeepsInactive attempt) (λ u. save-KeepsInactive))
        (λ u. Keeps-fail _)

  ruleset loop_rules = (inactive_rules, save-KeepsInactive, failed-KeepsInactive)

  share-KeepsInactive :
      (entry other : Entry) → KeepsInactive attempt (share backend journal attempt entry other)
  unfolding share
  share-KeepsInactive entry other = search loop_rules

  create-KeepsInactive :
      (entry : Entry) → KeepsInactive attempt (create backend journal attempt entry)
  unfolding create
  create-KeepsInactive entry = search loop_rules depth 8

  obtain-KeepsInactive :
      (entry : Entry) → KeepsInactive attempt (obtain backend journal attempt entry)
  unfolding obtain
  obtain-KeepsInactive entry = search (loop_rules, share-KeepsInactive, create-KeepsInactive)

  apply_entry-KeepsInactive :
      (index : ℕ) (entry : Entry)
      → KeepsInactive attempt (apply_entry backend journal attempt index entry)
  unfolding apply_entry
  apply_entry-KeepsInactive index entry = search (loop_rules, obtain-KeepsInactive) depth 7

  apply_entries-KeepsInactive :
      (rounds index : ℕ)
      → KeepsInactive attempt (apply_entries backend journal attempt rounds index)
  unfolding apply_entries
  apply_entries-KeepsInactive zero index = Keeps-pure tt
  apply_entries-KeepsInactive (suc rounds) index =
      Keeps-bind _ _ (Keeps-gets (entry_at attempt index)) λ found.
        Keeps-bind _ _
          (Keeps-on_option found _ _ (Keeps-fail recovery_required)
            λ entry e. apply_entry-KeepsInactive index entry)
          (λ u. apply_entries-KeepsInactive rounds (index + 1))

  -- A lease is active exactly when apply has returned.
  abbrev pub Applied : Result (Unit {0}) × Snapshot × W → Type 0
  Applied (ok _, s, w) = phase attempt s ≡ some active
  Applied (err _, s, w) = IsInactive attempt s

  activate-Applied :
      (s : Snapshot) (w : W) (lease : Lease)
      → lookup attempt s.records ≡ some lease
      → Applied (activate backend journal attempt s w)
  unfolding activate ◌>>=◌ try_save
  activate-Applied s w lease there =
      let activated = modify_lease attempt (set_phase active false) s in
      elim (Result-cases (journal.save activated w).0) [
        | inl (u, e) ↦
            rw (e, on_result)
              (ground (arith, modify_lease-phase attempt (set_phase active false) s))
        | inr (x, e) ↦
            rw (e, on_result)
              (ground (
                arith,
                modify_lease-phase attempt (set_phase needs_recovery true) activated,
                lookup-modify attempt attempt (set_phase active false) s.records,
              ))
      ]

  -- Everything of `apply` past its guards and before the lease becomes active.
  abbrev install : ℕ → M W (Unit {0})
  install count =
      update (modify_lease attempt (set_phase applying true))
      >> save journal
      >> apply_entries backend journal attempt count 0

  install-KeepsInactive : (count : ℕ) → KeepsInactive attempt (install count)
  install-KeepsInactive count =
      Keeps-bind _ _
        (Keeps-bind _ _ (phase-KeepsInactive attempt applying true (λ e. cc))
          (λ u. save-KeepsInactive))
        (λ u. apply_entries-KeepsInactive count 0)

  install-KeepsPlans : (s₀ : Snapshot) (count : ℕ) → KeepsPlans s₀ (install count)
  install-KeepsPlans s₀ count =
      Keeps-bind _ _
        (Keeps-bind _ _ (phase-KeepsPlans s₀ attempt applying true)
          (λ u. save-KeepsPlans s₀ backend journal))
        (λ u. apply_entries-KeepsPlans s₀ backend journal attempt count 0)

  still_there :
      (s t : Snapshot) (lease : Lease)
      → SamePlans s t
      → lookup attempt s.records ≡ some lease
      → (kept : Lease) × (lookup attempt t.records ≡ some kept)
  unfolding plan
  still_there s t lease h e = elim (Option-cases (lookup attempt t.records)) [
    | inl gone ↦ absurd (ground (arith, h.plans attempt))
    | inr found ↦ found
  ]

  apply_lease-Applied :
      (count : ℕ) (s : Snapshot) (w : W) (lease : Lease)
      → lookup attempt s.records ≡ some lease
      → IsInactive attempt s
      → Applied (apply_lease backend journal attempt count s w)
  unfolding apply_lease
  apply_lease-Applied count s w lease e quiet =
      let m = install count in
      let f = λ (u : Unit {0}). activate backend journal attempt in
      elim (Result-cases (m s w).0) [
        | inl (u, done) ↦
            let (kept, found) =
              still_there s (m s w).1 lease ((install-KeepsPlans s count).at s w (SamePlans-refl s))
                e in
            rw (bind_ok m f s w u done) (activate-Applied (m s w).1 (m s w).2 kept found)
        | inr (x, failing) ↦
            rw (bind_err m f s w x failing) ((install-KeepsInactive count).at s w quiet)
      ]

  -- On every branch: the attempt's lease is active if apply returns, and is not if apply fails.
  pub apply_reports : (s : Snapshot) (w : W) → Applied (apply backend journal attempt s w)
  unfolding apply ◌>>=◌ phase
  apply_reports s w = elim (Option-cases (lookup attempt s.records)) [
    | inl absent ↦ rw (absent, on_option) (ground arith)
    | inr (lease, e) ↦ elim (Bool-cases (lease.phase == active)) [
      | inl already ↦
          rw (e, on_option, already) (ground (arith, phase_equality.beq_iff lease.phase active))
      | inr idle ↦ elim (Bool-cases (lease.phase == prepared)) [
        | inl ready ↦
            rw (e, on_option, idle, ready)
              (apply_lease-Applied (length lease.entries) s w lease e
                (ground (arith, phase_equality.beq_iff lease.phase active)))
        | inr busy ↦
            rw (e, on_option, idle, busy)
              (ground (arith, phase_equality.beq_iff lease.phase active))
      ]
    ]
  ]
