-- ===== src/Network/Isolation/Shrinks.antt =====
-- The operations that add no lease: every attempt holds afterwards what it held, or nothing.
use mathlib.Core.Path.{subst}
use openfortivpn.Base.{
  none, some, refl, arith, sym, ◌∙◌, Bool-cases, Option-cases, inl, inr, ◌≡◌, ◌⊎◌, ◌==◌,
  saturating_add,
}
use openfortivpn.Base.Error.{Result-cases, ok, err, Result}
use openfortivpn.Network.Monad.{◌>>=◌, continue, Backend, Journal, on_result}
use openfortivpn.Network.Model.{Snapshot, Lease, Plan}
use openfortivpn.Base.Text.{Str, str_beq_iff, str_equality}
use openfortivpn.Network.Leases.{plan, recovered_lease}
use openfortivpn.Network.Isolation.{IsIsolated}
use openfortivpn.Network.Plans.{SamePlans, apply-KeepsPlans, SamePlans-refl}
use openfortivpn.Base.Dict.{lookup, map_values, lookup-map_values}
use openfortivpn.Network.Release.Outcome.{Released, release_outcome}
use openfortivpn.Network.Rollback.{apply_or_rollback, attempt_action}
use openfortivpn.Network.Journaled.{network_changed, save}
use openfortivpn.Network.Apply.{apply}
use openfortivpn.Network.Release.{release}

-- Every attempt holds what it held, or nothing any more.
abbrev pub Shrinks : Snapshot → Snapshot → Type 0
Shrinks s t = (i : Str) → (plan i t ≡ plan i s) ⊎ (plan i t ≡ none)

pub Shrinks-IsIsolated : (s t : Snapshot) → Shrinks s t → IsIsolated s → IsIsolated t
Shrinks-IsIsolated s t h v = record {
  keyed = λ i p e. elim (h i) [
    | inl same ↦ v.keyed i p (sym same ∙ e)
    | inr gone ↦ absurd (none_some (sym gone ∙ e))
  ];
  compatible = λ i j p q ne e f. elim (h i) [
    | inr gone ↦ absurd (none_some (sym gone ∙ e))
    | inl same_i ↦ elim (h j) [
      | inr gone ↦ absurd (none_some (sym gone ∙ f))
      | inl same_j ↦ v.compatible i j p q ne (sym same_i ∙ e) (sym same_j ∙ f)
    ]
  ];
}
  where
    none_some : {p : Plan} → none ≡ some p → ⊥
    none_some k = cc

Shrinks-trans : (s t u : Snapshot) → Shrinks s t → Shrinks t u → Shrinks s u
Shrinks-trans s t u h k i = elim (k i) [
  | inr gone ↦ inr gone
  | inl same ↦ elim (h i) [ inl old ↦ inl (same ∙ old) | inr gone ↦ inr (same ∙ gone) ]
]

pub SamePlans-Shrinks : (s t : Snapshot) → SamePlans s t → Shrinks s t
SamePlans-Shrinks s t h i = inl (h.plans i)

pub Released-Shrinks :
    {W : Type 0} (attempt : Str) (s : Snapshot) (x : Result (Unit {0}) × Snapshot × W)
    → Released attempt s x
    → Shrinks s x.1
Released-Shrinks attempt s (ok u, s', w') (gone, k) i = elim (Bool-cases (attempt == i)) [
  | inl is_it ↦ inr (subst (λ j. plan j s' ≡ none) ((str_beq_iff attempt i).0 is_it) gone)
  | inr other ↦ inl (k.others i other)
]
Released-Shrinks attempt s (err e, s', w') h i = inl (h.plans i)

pub map_values-plan :
    (f : Lease → Lease) (i : Str) (s : Snapshot)
    → ((lease : Lease) → (f lease).plan ≡ lease.plan)
    → plan i (record s { records = map_values f s.records }) ≡ plan i s
unfolding plan
map_values-plan f i s h =
    rw (plan, lookup-map_values f i s.records)
      (elim (Option-cases (lookup i s.records)) [
        | inl e ↦ ground arith
        | inr (lease, e) ↦ ground (arith, h lease)
      ])

module _ {W : Type 0} (backend : Backend W) (journal : Journal W) where
  pub rollback-Shrinks :
      (attempt : Str) (s : Snapshot) (w : W)
      → Shrinks s (apply_or_rollback backend journal attempt s w).1
  unfolding apply_or_rollback attempt_action ◌>>=◌
  rollback-Shrinks attempt s w =
      let x = apply backend journal attempt s w in
      let y = release backend journal attempt x.1 x.2 in
      let h =
        SamePlans-Shrinks s x.1
          ((apply-KeepsPlans s backend journal attempt).at s w (SamePlans-refl s)) in
      elim (Result-cases x.0) [
        | inl (u, e) ↦ rw (e, on_result) h
        | inr (c, e) ↦
            let k =
              Shrinks-trans s x.1 y.1 h (
                Released-Shrinks attempt x.1 y (release_outcome backend journal attempt x.1 x.2)) in
            elim (Result-cases y.0) [
              | inl (u, f) ↦ rw (e, on_result, f) k
              | inr (d, f) ↦ rw (e, on_result, f) k
            ]
      ]

  pub network_changed-Shrinks : (s : Snapshot) (w : W) → Shrinks s (network_changed journal s w).1
  unfolding network_changed ◌>>=◌ save plan
  network_changed-Shrinks s w i =
      let t : Snapshot = record s {
        network_epoch = saturating_add s.network_epoch 1;
        records = map_values recovered_lease s.records;
      } in
      elim (Result-cases (journal.save t w).0) [
        | inl (u, e) ↦ rw (e, continue) (inl (map_values-plan recovered_lease i s (λ lease. refl)))
        | inr (c, e) ↦ rw (e, continue) (inl (map_values-plan recovered_lease i s (λ lease. refl)))
      ]
