-- ===== src/Network/Release/Outcome.antt =====
-- What `Coordinator::release` does to the leases, on every branch.
use openfortivpn.Base.{
  refl, arith, ◌∙◌, Option-cases, inl, inr, ◌==◌, ◌≡◌, false, none, if◌then◌else◌, some, Bool, true,
}
use openfortivpn.Base.Error.{Result-cases, ok, err, Result}
use openfortivpn.Network.Monad.{
  ◌>>=◌, ◌>>◌, continue, Backend, Journal, on_option, M, choose, update, bind_ok, bind_err,
}
use openfortivpn.Base.Text.{Str, str_equality, str_beq_iff}
use openfortivpn.Network.Leases.{plan, modify_lease, set_phase}
use openfortivpn.Network.Model.{Snapshot, Lease, needs_recovery, releasing}
use openfortivpn.Base.Dict.{remove, lookup, lookup-remove, insert, lookup-insert}
use openfortivpn.Network.Release.{drop_lease, release_lease, release, is_uncertain, release_entries}
use openfortivpn.Network.Journaled.{failed, try_save, save}
use openfortivpn.Network.Plans.{
  SamePlans, SamePlans-trans, SamePlans-refl, KeepsPlans, modify_lease-SamePlans, phase-KeepsPlans,
  save-KeepsPlans, release_entries-KeepsPlans,
}
use openfortivpn.Network.Keeps.{Keeps-bind}

-- The other attempts hold what they held.
pub record SameOthers (attempt : Str) (s t : Snapshot) : Type 0 where
  pub others : (i : Str) → (attempt == i) ≡ false → plan i t ≡ plan i s
  pub epoch : t.network_epoch ≡ s.network_epoch

-- A release that returns has dropped this lease and no other; one that fails keeps every lease.
abbrev pub Released : {W : Type 0} → Str → Snapshot → Result (Unit {0}) × Snapshot × W → Type 0
Released attempt s (ok _, s', w') = (plan attempt s' ≡ none) × SameOthers attempt s s'
Released attempt s (err _, s', w') = SamePlans s s'

Released-trans :
    {W : Type 0} (attempt : Str) (s t : Snapshot) (x : Result (Unit {0}) × Snapshot × W)
    → SamePlans s t
    → Released attempt t x
    → Released attempt s x
Released-trans attempt s t (ok u, s', w') h (gone, k) =
    (gone, record { others = λ i ne. k.others i ne ∙ h.plans i; epoch = k.epoch ∙ h.epoch })
Released-trans attempt s t (err e, s', w') h k = SamePlans-trans h k

pub plan-remove :
    (attempt i : Str) (s : Snapshot)
    → plan i (record s { records = remove attempt s.records })
      ≡ (if attempt == i then none else plan i s)
unfolding plan
plan-remove attempt i s = rw (plan, lookup-remove attempt i s.records) (ground arith)

-- The reservation that returns is the one that was there.
plan-reinsert :
    (attempt : Str) (lease : Lease) (i : Str) (s : Snapshot)
    → lookup attempt s.records ≡ some lease
    → plan i (record s { records = insert attempt lease (remove attempt s.records) }) ≡ plan i s
unfolding plan
plan-reinsert attempt lease i s e =
    rw
      (
        plan,
        lookup-insert attempt i lease (remove attempt s.records),
        lookup-remove attempt i s.records,
      )
      (ground (arith, str_beq_iff attempt i))

module _ {W : Type 0} (backend : Backend W) (journal : Journal W) where
  pub drop_lease-Released :
      (attempt : Str) (s : Snapshot) (w : W)
      → Released attempt s (drop_lease backend journal attempt s w)
  unfolding drop_lease ◌>>=◌ try_save
  drop_lease-Released attempt s w = elim (Option-cases (lookup attempt s.records)) [
    | inl absent ↦ rw (absent, on_option) (SamePlans-refl s)
    | inr (lease, e) ↦
        let dropped : Snapshot = record s { records = remove attempt s.records } in
        elim (Result-cases (journal.save dropped w).0) [
          | inl (u, f) ↦
              rw (e, on_option, f)
                (
                  ground (arith, plan-remove attempt attempt s, str_beq_iff attempt attempt),
                  record { others = λ i ne. ground (arith, plan-remove attempt i s); epoch = refl },
                )
          | inr (x, f) ↦
              rw (e, on_option, f)
                (record { plans = λ i. plan-reinsert attempt lease i s e; epoch = refl })
        ]
  ]

  failed-Released :
      (attempt : Str) (s : Snapshot) (w : W) → Released attempt s (failed journal attempt s w)
  unfolding failed ◌>>=◌ save
  failed-Released attempt s w =
      let f : Lease → Lease = λ lease. record lease { phase = needs_recovery } in
      let same = modify_lease-SamePlans attempt f s (λ lease. refl) in
      elim (Result-cases (journal.save (modify_lease attempt f s) w).0) [
        | inl (u, e) ↦ rw (e, continue) same
        | inr (x, e) ↦ rw (e, continue) same
      ]

  -- Everything of `release` before the lease is dropped.
  abbrev unwind : Str → Lease → M W Bool
  unwind attempt lease =
      update (modify_lease attempt (set_phase releasing (is_uncertain lease)))
      >> save journal
      >> release_entries backend journal attempt (is_uncertain lease) 0 lease.entries

  unwind-KeepsPlans :
      (s₀ : Snapshot) (attempt : Str) (lease : Lease) → KeepsPlans s₀ (unwind attempt lease)
  unwind-KeepsPlans s₀ attempt lease =
      Keeps-bind _ _
        (Keeps-bind _ _ (phase-KeepsPlans s₀ attempt releasing (is_uncertain lease))
          λ u. save-KeepsPlans s₀ backend journal)
        λ u.
          release_entries-KeepsPlans s₀ backend journal attempt (is_uncertain lease) 0 lease.entries

  choose-Released :
      (failing : Bool) (attempt : Str) (s : Snapshot) (w : W)
      → Released attempt s
          (choose failing (failed journal attempt) (drop_lease backend journal attempt) s w)
  unfolding choose
  choose-Released true attempt s w = failed-Released attempt s w
  choose-Released false attempt s w = drop_lease-Released attempt s w

  release_lease-Released :
      (attempt : Str) (lease : Lease) (s : Snapshot) (w : W)
      → Released attempt s (release_lease backend journal attempt lease s w)
  unfolding release_lease
  release_lease-Released attempt lease s w =
      let m = unwind attempt lease in
      let f = λ (failing : Bool).
        choose failing (failed journal attempt) (drop_lease backend journal attempt) in
      let same = (unwind-KeepsPlans s attempt lease).at s w (SamePlans-refl s) in
      elim (Result-cases (m s w).0) [
        | inl (failing, e) ↦ rw (bind_ok m f s w failing e) (
            Released-trans attempt s (m s w).1 _ same
              (choose-Released failing attempt (m s w).1 (m s w).2))
        | inr (x, e) ↦ rw (bind_err m f s w x e) same
      ]

  -- If release succeeds, the attempt holds no lease any more; if it fails, the attempt holds the
  -- plan that it held. On both branches the other attempts hold what they held.
  pub release_outcome :
      (attempt : Str) (s : Snapshot) (w : W)
      → Released attempt s (release backend journal attempt s w)
  unfolding release ◌>>=◌ plan
  release_outcome attempt s w = elim (Option-cases (lookup attempt s.records)) [
    | inl absent ↦
        rw (absent, on_option) (ground (arith), record { others = λ i ne. refl; epoch = refl })
    | inr (lease, e) ↦ rw (e, on_option) (release_lease-Released attempt lease s w)
  ]
