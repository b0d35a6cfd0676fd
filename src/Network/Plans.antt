-- ===== src/Network/Plans.antt =====
-- What apply and release leave alone: the plans that attempts hold, and the network epoch.
use openfortivpn.Base.{refl, List}
use openfortivpn.Network.Model.{Snapshot, Lease, Phase, Entry}
use openfortivpn.Network.Leases.{plan, modify_lease, set_phase}
use openfortivpn.Network.Closed.{
  IsClosed, save-Closed, apply-Closed, apply_entries-Closed, release_entries-Closed,
}
use openfortivpn.Network.Keeps.{Keeps}
use openfortivpn.Base.Text.{Str}
use openfortivpn.Base.{◌∙◌, ◌≡◌, ℕ, Bool, Option-cases, inl, arith, inr}
use openfortivpn.Network.Monad.{M, update, Backend, Journal}
use openfortivpn.Network.Journaled.{save}
use openfortivpn.Network.Apply.{apply_entries, apply}
use openfortivpn.Base.Dict.{lookup-modify, lookup}
use openfortivpn.Network.Release.{release_entries}

-- The same attempts hold the same plans, in the same network epoch.
pub record SamePlans (s t : Snapshot) : Type 0 where
  pub plans : (id : Str) → plan id t ≡ plan id s
  pub epoch : t.network_epoch ≡ s.network_epoch

pub SamePlans-refl : (s : Snapshot) → SamePlans s s
SamePlans-refl s = record { plans = λ id. refl; epoch = refl }

pub SamePlans-trans : {s t u : Snapshot} → SamePlans s t → SamePlans t u → SamePlans s u
SamePlans-trans h k = record { plans = λ id. k.plans id ∙ h.plans id; epoch = k.epoch ∙ h.epoch }

pub modify_lease-SamePlans :
    (attempt : Str) (f : Lease → Lease) (s : Snapshot)
    → ((lease : Lease) → (f lease).plan ≡ lease.plan)
    → SamePlans s (modify_lease attempt f s)
unfolding plan
modify_lease-SamePlans attempt f s h = record {
  plans = λ id.
      rw (plan, lookup-modify attempt id f s.records)
        (elim (Option-cases (lookup id s.records)) [
          | inl e ↦ ground arith
          | inr (lease, e) ↦ ground (arith, h lease)
        ]);
  epoch = refl;
}

-- `m` leaves the plans of `s₀` as they are.
abbrev pub KeepsPlans : {W A : Type 0} → Snapshot → M W A → Type 0
KeepsPlans s₀ m = Keeps (λ s w. SamePlans s₀ s) m

pub phase-KeepsPlans :
    {W : Type 0} (s₀ : Snapshot) (attempt : Str) (p : Phase) (u : Bool)
    → KeepsPlans {W = W} s₀ (update (modify_lease attempt (set_phase p u)))
unfolding update
phase-KeepsPlans s₀ attempt p u = record {
  at =
      λ s w h. SamePlans-trans h (modify_lease-SamePlans attempt (set_phase p u) s (λ lease. refl));
}

module _ {W : Type 0} (s₀ : Snapshot) (backend : Backend W) (journal : Journal W) where
  plans-IsClosed : IsClosed (λ s w. SamePlans s₀ s) backend journal
  plans-IsClosed = record {
    modifying = λ attempt f s w k h. SamePlans-trans h (modify_lease-SamePlans attempt f s k);
    inspecting = λ r s w h. h;
    applying_it = λ r s w h. h;
    removing = λ r f s w h. h;
    saving = λ s w h. h;
  }

  pub save-KeepsPlans : KeepsPlans s₀ (save journal)
  save-KeepsPlans = save-Closed backend journal plans-IsClosed

  pub apply_entries-KeepsPlans :
      (attempt : Str) (rounds index : ℕ)
      → KeepsPlans s₀ (apply_entries backend journal attempt rounds index)
  apply_entries-KeepsPlans = apply_entries-Closed backend journal plans-IsClosed

  pub apply-KeepsPlans : (attempt : Str) → KeepsPlans s₀ (apply backend journal attempt)
  apply-KeepsPlans = apply-Closed backend journal plans-IsClosed

  pub release_entries-KeepsPlans :
      (attempt : Str) (uncertain : Bool) (index : ℕ) (entries : List Entry)
      → KeepsPlans s₀ (release_entries backend journal attempt uncertain index entries)
  release_entries-KeepsPlans = release_entries-Closed backend journal plans-IsClosed
