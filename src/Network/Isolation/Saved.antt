-- ===== src/Network/Isolation/Saved.antt =====
-- The coordinator saves isolated leases only, at every call of the journal.
use mathlib.Core.Path.{subst}
use openfortivpn.Base.{
  refl, arith, sym, Bool-cases, Option-cases, inl, inr, ◌≡◌, ◌==◌, saturating_add, List, ◌∷◌, [],
  length, nat_equality,
}
use openfortivpn.Base.Error.{Result-cases, ok, Result, recovery_required}
use openfortivpn.Network.Monad.{
  ◌>>=◌, continue, Backend, Journal, M, update, bind_ok, on_option, bind_err, call,
}
use openfortivpn.Network.Model.{
  Snapshot, Lease, Plan, BackendCapabilities, releasing, Resource, Entry,
}
use openfortivpn.Base.Text.{Str, str_equality}
use openfortivpn.Network.Leases.{plan, recovered_lease, preview}
use openfortivpn.Network.Isolation.{IsIsolated, SamePlans-IsIsolated, insert-IsIsolated}
use openfortivpn.Network.Plans.{modify_lease-SamePlans}
use openfortivpn.Base.Dict.{lookup, map_values, remove}
use openfortivpn.Network.Release.Outcome.{plan-remove, drop_lease-Released}
use openfortivpn.Network.Rollback.{apply_or_rollback, attempt_action}
use openfortivpn.Network.Journaled.{network_changed, try_save}
use openfortivpn.Network.Prepare.Outcome.{
  prepare_atomic, prepare_entries-same, with_lease, prepare_admitted,
}
use openfortivpn.Network.Apply.{apply}
use openfortivpn.Network.Prepare.{prepare, prepare_entries, record_lease, prepare_entry}
use openfortivpn.Network.Release.{release, drop_lease, release_lease, is_uncertain}
use openfortivpn.Network.Isolation.Shrinks.{Shrinks-IsIsolated, Released-Shrinks, map_values-plan}
use openfortivpn.Network.Store.Saved.{KeptBy}
use openfortivpn.Network.Closed.{
  IsClosed, apply-Closed, release_entries-Closed, phase-Closed, save-Closed, failed-Closed,
  inspect-Closed,
}
use openfortivpn.Network.Keeps.{
  Keeps, keeps_rules, Keeps-bind, Keeps-fail, Keeps-pure, Keeps-gets, Keeps-on_result,
  Keeps-on_option, Keeps-choose,
}
use openfortivpn.Network.Store.Manager.{
  serve, Request, preparing_plan, applying_attempt, releasing_attempt, opening_store,
  changing_network,
}
use openfortivpn.Network.Store.{StoreDirectory}

module _ {W : Type 0} {Q : W → Type 0} (backend : Backend W) (journal : Journal W)
    (kept : KeptBy IsIsolated Q backend journal) where
  abbrev IsSafe : Snapshot → W → Type 0
  IsSafe s w = IsIsolated s × Q w

  IsSafe-IsClosed : IsClosed IsSafe backend journal
  IsSafe-IsClosed = record {
    modifying =
        λ attempt f s w k h. (SamePlans-IsIsolated (modify_lease-SamePlans attempt f s k) h.0, h.1);
    inspecting = λ r s w h. (h.0, kept.inspecting r w h.1);
    applying_it = λ r s w h. (h.0, kept.applying_it r w h.1);
    removing = λ r f s w h. (h.0, kept.removing r f w h.1);
    saving = λ s w h. (h.0, kept.saving s w h.0 h.1);
  }

  dropped-IsIsolated :
      (attempt : Str) (s : Snapshot)
      → IsIsolated s
      → IsIsolated (record s { records = remove attempt s.records })
  dropped-IsIsolated attempt s v =
      let dropped : Snapshot = record s { records = remove attempt s.records } in
      Shrinks-IsIsolated s dropped
        (λ i. elim (Bool-cases (attempt == i)) [
          | inl is_it ↦ inr (ground (arith, is_it, plan-remove attempt i s))
          | inr other ↦ inl (ground (arith, other, plan-remove attempt i s))
        ])
        v

  drop_lease-Safe : (attempt : Str) → Keeps IsSafe (drop_lease backend journal attempt)
  unfolding drop_lease ◌>>=◌ try_save
  drop_lease-Safe attempt = record {
    at = λ s w h. (
      Shrinks-IsIsolated s (drop_lease backend journal attempt s w).1
          (Released-Shrinks attempt s (drop_lease backend journal attempt s w)
            (drop_lease-Released backend journal attempt s w))
          h.0,
      elim (Option-cases (lookup attempt s.records)) [
        | inl absent ↦ rw (absent, on_option) h.1
        | inr (lease, e) ↦
            let dropped : Snapshot = record s { records = remove attempt s.records } in
            let q = kept.saving dropped w (dropped-IsIsolated attempt s h.0) h.1 in
            elim (Result-cases (journal.save dropped w).0) [
              | inl (u, f) ↦ rw (e, on_option, f) q
              | inr (x, f) ↦ rw (e, on_option, f) q
            ]
      ],
    );
  }

  release_lease-Safe :
      (attempt : Str) (lease : Lease) → Keeps IsSafe (release_lease backend journal attempt lease)
  unfolding release_lease
  release_lease-Safe attempt lease =
      Keeps-bind _ _
        (Keeps-bind _ _
          (Keeps-bind _ _
            (phase-Closed backend journal IsSafe-IsClosed attempt releasing (is_uncertain lease))
            (λ u. save-Closed backend journal IsSafe-IsClosed))
          (λ u.
            release_entries-Closed backend journal IsSafe-IsClosed attempt (is_uncertain lease) 0
              lease.entries))
        (λ failing.
          Keeps-choose failing _ _ (λ e. failed-Closed backend journal IsSafe-IsClosed _ attempt)
            (λ e. drop_lease-Safe attempt))

  release-Safe : (attempt : Str) → Keeps IsSafe (release backend journal attempt)
  unfolding release
  release-Safe attempt = Keeps-bind _ _ (Keeps-gets _) (λ found.
      Keeps-on_option found _ _ (Keeps-pure tt) (λ lease e. release_lease-Safe attempt lease))

  attempt_action-Safe : {A : Type 0} (m : M W A) → Keeps IsSafe m → Keeps IsSafe (attempt_action m)
  unfolding attempt_action
  attempt_action-Safe m k = record { at = λ s w h. k.at s w h }

  rollback-Safe : (attempt : Str) → Keeps IsSafe (apply_or_rollback backend journal attempt)
  unfolding apply_or_rollback
  rollback-Safe attempt =
      Keeps-bind _ _
        (attempt_action-Safe (apply backend journal attempt)
          (apply-Closed backend journal IsSafe-IsClosed attempt))
        (λ applied.
          Keeps-on_result applied _ _
            (λ e.
              Keeps-bind _ _
                (attempt_action-Safe (release backend journal attempt) (release-Safe attempt))
                (λ released.
                  Keeps-on_result released _ _ (λ d. Keeps-fail recovery_required)
                    (λ u. Keeps-fail e)))
            (λ u. Keeps-pure u))

  network_changed-Safe : Keeps IsSafe (network_changed journal)
  unfolding network_changed update plan
  network_changed-Safe =
      Keeps-bind _ _ (Keeps-bind _ _ changed (λ u. save-Closed backend journal IsSafe-IsClosed))
        (λ u. Keeps-gets _)
    where
      changed : Keeps IsSafe (
          update (λ s. record s {
            network_epoch = saturating_add s.network_epoch 1;
            records = map_values recovered_lease s.records;
          }))
      changed = record {
        at = λ s w h. (
          Shrinks-IsIsolated s _ (λ i. inl (map_values-plan recovered_lease i s (λ lease. refl)))
              h.0,
          h.1,
        );
      }

  inspect-Safe : (r : Resource) → Keeps IsSafe (call (backend.inspect r))
  inspect-Safe = inspect-Closed backend journal IsSafe-IsClosed

  prepare_entry-Safe : (r : Resource) → Keeps IsSafe (prepare_entry backend journal r)
  unfolding prepare_entry
  prepare_entry-Safe r = search (keeps_rules, inspect-Safe)

  prepare_entries-Safe : (rs : List Resource) → Keeps IsSafe (prepare_entries backend journal rs)
  unfolding prepare_entries
  prepare_entries-Safe [] = Keeps-pure []
  prepare_entries-Safe (r ∷ rs) =
      Keeps-bind _ _ (prepare_entry-Safe r) (λ entry.
        Keeps-bind _ _ (prepare_entries-Safe rs) (λ entries. Keeps-pure (entry ∷ entries)))

  record_lease-Safe :
      (p : Plan) (entries : List Entry) (s : Snapshot) (w : W)
      → IsIsolated (with_lease backend journal p entries s)
      → Q w
      → Q (record_lease backend journal p entries s w).2
  unfolding record_lease ◌>>=◌ try_save
  record_lease-Safe p entries s w v q =
      let q' = kept.saving (with_lease backend journal p entries s) w v q in
      elim (Result-cases (journal.save (with_lease backend journal p entries s) w).0) [
        | inl (u, e) ↦ rw e q'
        | inr (x, e) ↦ rw e q'
      ]

  prepared_keeps :
      (p : Plan) (caps : BackendCapabilities) (s : Snapshot) (w : W)
      → preview p caps s ≡ ok tt
      → IsSafe s w
      → Q ((prepare_entries backend journal p.resources >>= record_lease backend journal p) s w).2
  prepared_keeps p caps s w pre h =
      let m = prepare_entries backend journal p.resources in
      let f = record_lease backend journal p in
      let same : (m s w).1 ≡ s = (prepare_entries-same backend journal s p.resources).at s w refl in
      let q = ((prepare_entries-Safe p.resources).at s w h).1 in
      elim (Result-cases (m s w).0) [
        | inl (entries, e) ↦ rw (bind_ok m f s w entries e) (
            subst (λ t. Q (f entries t (m s w).2).2) (sym same)
              (record_lease-Safe p entries s (m s w).2 (insert-IsIsolated p caps entries s pre h.0)
                q))
        | inr (x, e) ↦ rw (bind_err m f s w x e) q
      ]

  prepare_keeps :
      (p : Plan) (caps : BackendCapabilities) (s : Snapshot) (w : W)
      → IsSafe s w
      → Q (prepare backend journal p caps s w).2
  unfolding prepare ◌>>=◌
  prepare_keeps p caps s w h = elim (Result-cases (preview p caps s)) [
    | inr (x, e) ↦ rw (e, continue) h.1
    | inl (u, e) ↦ elim (Option-cases (lookup p.attempt_id s.records)) [
      | inr (lease, f) ↦ rw (e, continue, f) h.1
      | inl new ↦ elim (Bool-cases (length s.records == 512)) [
        | inl full ↦ rw (e, continue, new, full) h.1
        | inr room ↦
            subst (λ (x : Result (Unit {0}) × Snapshot × W). Q x.2)
              (sym (prepare_admitted backend journal p caps s w e new room))
              (prepared_keeps p caps s w e h)
      ]
    ]
  ]

  prepare-Safe :
      (p : Plan) (caps : BackendCapabilities) → Keeps IsSafe (prepare backend journal p caps)
  prepare-Safe p caps = record {
    at = λ s w h. ((prepare_atomic backend journal p caps s w h.0).3, prepare_keeps p caps s w h);
  }

  -- Every operation of a coordinator leaves isolated leases, and has saved isolated leases only.
  pub serve-IsSafe :
      (dir : StoreDirectory W) (r : Request) (s : Snapshot) (w : W)
      → IsSafe s w
      → let (s', w') = serve dir backend journal r s w in IsSafe s' w'
  unfolding serve
  serve-IsSafe dir (preparing_plan p caps) s w h = (prepare-Safe p caps).at s w h
  serve-IsSafe dir (applying_attempt attempt) s w h = (rollback-Safe attempt).at s w h
  serve-IsSafe dir (releasing_attempt attempt) s w h = (release-Safe attempt).at s w h
  serve-IsSafe dir changing_network s w h = network_changed-Safe.at s w h
  serve-IsSafe dir (opening_store nonblocking) s w h = h
