-- ===== src/Network/Prepare/Outcome.antt =====
-- What `Coordinator::prepare` does to the leases, on every branch.
use mathlib.Core.Path.{subst}
use mathlib.Core.Path.{subst}
use openfortivpn.Base.{
  ap, sym, sym, refl, arith, Bool-cases, Option-cases, inl, inr, List, ◌≡◌, ◌⊎◌, none, ◌∷◌, [],
  length, ◌==◌, nat_equality, false, some,
}
use openfortivpn.Base.Error.{Result-cases, ok, err, Result, ErrorCode}
use openfortivpn.Network.Monad.{◌>>=◌, Backend, Journal, call, bind_ok, continue, bind_err}
use openfortivpn.Network.Prepare.{
  prepare_entry, prepare_entries, record_lease, prepare, try_save, insert, lookup, fresh_lease,
  preview,
}
use openfortivpn.Network.Model.{Plan, Snapshot, BackendCapabilities, Resource, Entry, Lease}
use openfortivpn.Network.Journaled.{try_save}
use openfortivpn.Network.Keeps.{Keeps, keeps_rules, Keeps-pure, Keeps-bind}
use openfortivpn.Base.Dict.{insert, lookup, remove-insert}
use openfortivpn.Network.Leases.{fresh_lease, preview, plan}
use openfortivpn.Base.Text.{Str, str_equality, str_beq_iff}
use openfortivpn.Network.Isolation.{IsIsolated, preview_same, plan-insert, insert-IsIsolated}

module _ {W : Type 0} (backend : Backend W) (journal : Journal W) where
  call-same : {A : Type 0} (s₀ : Snapshot) (f : W → Result A × W) → Keeps (λ s w. s ≡ s₀) (call f)
  unfolding call
  call-same s₀ f = record { at = λ s w h. h }

  -- Preparing entries only reads the snapshot.
  prepare_entry-same :
      (s₀ : Snapshot) (r : Resource) → Keeps (λ s w. s ≡ s₀) (prepare_entry backend journal r)
  unfolding prepare_entry
  prepare_entry-same s₀ r = search (keeps_rules, call-same)

  pub prepare_entries-same :
      (s₀ : Snapshot) (rs : List Resource)
      → Keeps (λ s w. s ≡ s₀) (prepare_entries backend journal rs)
  unfolding prepare_entries
  prepare_entries-same s₀ [] = Keeps-pure []
  prepare_entries-same s₀ (r ∷ rs) =
      Keeps-bind _ _ (prepare_entry-same s₀ r)
        λ entry. Keeps-bind _ _ (prepare_entries-same s₀ rs) λ entries. Keeps-pure (entry ∷ entries)

  -- The snapshot with the lease of a new plan.
  abbrev pub with_lease : Plan → List Entry → Snapshot → Snapshot
  with_lease p entries s = record s {
    records = insert p.attempt_id (fresh_lease p entries) s.records;
  }

  -- The leases after an operation that adds the plan or fails and changes nothing.
  abbrev pub Outcome : Plan → Snapshot → Result (Unit {0}) × Snapshot × W → Type 0
  Outcome p s (ok _, s', w') = (entries : List Entry) × (s' ≡ with_lease p entries s)
  Outcome p s (err _, s', w') = s' ≡ s

  record_lease_lem :
      (p : Plan) (entries : List Entry) (s : Snapshot) (w : W)
      → lookup p.attempt_id s.records ≡ none
      → Outcome p s (record_lease backend journal p entries s w)
  unfolding record_lease ◌>>=◌ try_save
  record_lease_lem p entries s w new =
      elim (Result-cases (journal.save (with_lease p entries s) w).0) [
        | inl (u, e) ↦ rw e (entries, refl)
        | inr (x, e) ↦
            rw e (ground (arith, remove-insert p.attempt_id (fresh_lease p entries) s.records new))
      ]

  prepare_new :
      (p : Plan) (rs : List Resource) (s : Snapshot) (w : W)
      → lookup p.attempt_id s.records ≡ none
      → Outcome p s ((prepare_entries backend journal rs >>= record_lease backend journal p) s w)
  prepare_new p rs s w new =
      let m = prepare_entries backend journal rs in
      let f = record_lease backend journal p in
      let same : (m s w).1 ≡ s = (prepare_entries-same s rs).at s w refl in
      elim (Result-cases (m s w).0) [
        | inl (entries, e) ↦ rw (bind_ok m f s w entries e) (
            subst (λ t. Outcome p s (f entries t (m s w).2)) (sym same)
              (record_lease_lem p entries s (m s w).2 new))
        | inr (x, e) ↦ rw (bind_err m f s w x e) same
      ]

  -- What `prepare` may have done to the leases: nothing, or it has added the lease of a plan that
  -- is new and that `preview` admits.
  abbrev pub Prepared :
      Plan → BackendCapabilities → Snapshot → Result (Unit {0}) × Snapshot × W → Type 0
  Prepared p caps s (r, s', w') =
      ((s' ≡ s)
        × (r ≡ ok tt
            → (preview p caps s ≡ ok tt)
              × ((lease : Lease) × (lookup p.attempt_id s.records ≡ some lease))))
      ⊎ ((r ≡ ok tt)
          × (preview p caps s ≡ ok tt)
          × (lookup p.attempt_id s.records ≡ none)
          × ((entries : List Entry) × (s' ≡ with_lease p entries s)))

  Prepared-new :
      (p : Plan) (caps : BackendCapabilities) (s : Snapshot) (x : Result (Unit {0}) × Snapshot × W)
      → preview p caps s ≡ ok tt
      → lookup p.attempt_id s.records ≡ none
      → Outcome p s x
      → Prepared p caps s x
  Prepared-new p caps s (ok u, s', w') pre new h = inr (refl, pre, new, h)
  Prepared-new p caps s (err e, s', w') pre new h = inl (h, λ k. cc)

  -- Past its guards `prepare` records the lease.
  pub prepare_admitted :
      (p : Plan) (caps : BackendCapabilities) (s : Snapshot) (w : W)
      → preview p caps s ≡ ok tt
      → lookup p.attempt_id s.records ≡ none
      → (length s.records == 512) ≡ false
      → prepare backend journal p caps s w
        ≡ (prepare_entries backend journal p.resources >>= record_lease backend journal p) s w
  unfolding prepare ◌>>=◌
  prepare_admitted p caps s w e new room = rw (e, continue, new, room)

  pub prepare-Prepared :
      (p : Plan) (caps : BackendCapabilities) (s : Snapshot) (w : W)
      → Prepared p caps s (prepare backend journal p caps s w)
  unfolding prepare ◌>>=◌
  prepare-Prepared p caps s w = elim (Result-cases (preview p caps s)) [
    | inr (x, e) ↦ rw (e, continue) (inl (refl, λ k. cc))
    | inl (u, e) ↦ elim (Option-cases (lookup p.attempt_id s.records)) [
      | inr (lease, f) ↦ inl (rw (e, continue, f) refl, λ k. (e, (lease, f)))
      | inl new ↦ elim (Bool-cases (length s.records == 512)) [
        | inl full ↦ rw (e, continue, new, full) (inl (refl, λ k. cc))
        | inr room ↦
            subst (Prepared p caps s) (sym (prepare_admitted p caps s w e new room))
              (Prepared-new p caps s _ e new (prepare_new p p.resources s w new))
      ]
    ]
  ]

  -- In the terms of `Prepared`: a failure changes nothing, other attempts keep their plans, and
  -- after a success the attempt holds this plan.
  Prepared-holds :
      (p : Plan) (caps : BackendCapabilities) (s : Snapshot) (x : Result (Unit {0}) × Snapshot × W)
      → IsIsolated s
      → Prepared p caps s x
      → ((e : ErrorCode) → x.0 ≡ err e → x.1 ≡ s)
        × ((i : Str) → (p.attempt_id == i) ≡ false → plan i x.1 ≡ plan i s)
        × (x.0 ≡ ok tt → plan p.attempt_id x.1 ≡ some p)
        × IsIsolated x.1
  Prepared-holds p caps s x v (inl (same, held)) = (
    λ e h. same,
    λ i ne. ap (plan i) same,
    λ h.
        let (pre, found) = held h in
        let (lease, e) = found in rw same (preview_same p lease caps s v pre e),
    subst IsIsolated (sym same) v,
  )
  Prepared-holds p caps s x v (inr (done, pre, new, (entries, added))) = (
    λ e h. absurd (cc),
    λ i ne. rw added (ground (arith, plan-insert p entries s i)),
    λ h. rw added (
        ground
          (arith, plan-insert p entries s p.attempt_id, str_beq_iff p.attempt_id p.attempt_id)),
    subst IsIsolated (sym added) (insert-IsIsolated p caps entries s pre v),
  )

  -- From isolated leases, prepare leaves isolated leases on every branch. If it fails, the snapshot
  -- is exactly what it was; other attempts keep their plans; if it succeeds, the attempt holds
  -- exactly this plan.
  pub prepare_atomic :
      (p : Plan) (caps : BackendCapabilities) (s : Snapshot) (w : W)
      → IsIsolated s
      → let (r, s', w') = prepare backend journal p caps s w in
        ((e : ErrorCode) → r ≡ err e → s' ≡ s)
        × ((i : Str) → (p.attempt_id == i) ≡ false → plan i s' ≡ plan i s)
        × (r ≡ ok tt → plan p.attempt_id s' ≡ some p)
        × IsIsolated s'
  prepare_atomic p caps s w v =
      Prepared-holds p caps s (prepare backend journal p caps s w) v (prepare-Prepared p caps s w)

  -- What prepare leaves: the snapshot as it was after an error, and this plan after a success.
  abbrev pub Atomic : Plan → Snapshot → Result (Unit {0}) × Snapshot × W → Type 0
  Atomic p s (err e, s', w') = s' ≡ s
  Atomic p s (ok u, s', w') = plan p.attempt_id s' ≡ some p

  outcome-Atomic :
      (p : Plan) (s : Snapshot) (x : Result (Unit {0}) × Snapshot × W)
      → ((e : ErrorCode) → x.0 ≡ err e → x.1 ≡ s)
      → (x.0 ≡ ok tt → plan p.attempt_id x.1 ≡ some p)
      → Atomic p s x
  outcome-Atomic p s (err e, s', w') same held = same e refl
  outcome-Atomic p s (ok u, s', w') same held = held refl

  -- From isolated leases, on every branch of prepare: the leases stay isolated and another attempt
  -- keeps its plan. If prepare fails, the snapshot is exactly what it was; if it succeeds, the
  -- attempt holds exactly this plan.
  pub prepare_all_or_nothing :
      (p : Plan) (caps : BackendCapabilities) (s : Snapshot) (w : W) (i : Str)
      → IsIsolated s
      → (p.attempt_id == i) ≡ false
      → Atomic p s (prepare backend journal p caps s w)
        × (plan i (prepare backend journal p caps s w).1 ≡ plan i s)
        × IsIsolated (prepare backend journal p caps s w).1
  prepare_all_or_nothing p caps s w i v other =
      let (same, others, held, isolated) = prepare_atomic p caps s w v in
      (outcome-Atomic p s (prepare backend journal p caps s w) same held, others i other, isolated)
