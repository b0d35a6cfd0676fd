-- ===== src/Network/Authority/Holders.antt =====
-- All processes of the machine that hold the authority, as a state machine: engines with a lease and
-- maintenance.
use mathlib.Core.Path.{subst}
use openfortivpn.Base.{
  ◌≡◌, refl, ◌⊎◌, inl, inr, Bool, true, false, List, [], ◌∷◌, Option, none, some, ℕ, arith, sym,
  ◌∙◌, zero, suc, get_elem?, set, ap, Bool-cases, leb, ◌||◌, ltb, ◌^◌, ◌-◌,
}
use openfortivpn.Base.Text.{Str, str_equality}
use openfortivpn.Base.Error.{Result, ok, err}
use openfortivpn.Base.Action.{Action}
use openfortivpn.Network.Authority.{
  Owner, Record, Directory, acquire, maintenance_guard, finish, acknowledge, bind_process_group,
  current_record,
}
use openfortivpn.Network.Authority.Exclusive.{IsLawful, Fixed}
use openfortivpn.Network.Authority.Reservation.{Acquired, acquire-Acquired}
use openfortivpn.Network.Authority.Removal.{Maintained, maintenance-Maintained, acknowledge-Blocked}

pub data Holder : Type 0 where
  leased : Owner → Holder
  maintaining : Holder

abbrev without : ℕ → List Holder → List Holder
without i [] = []
without zero (h ∷ hs) = hs
without (suc i) (h ∷ hs) = h ∷ without i hs

abbrev pub with_lease : Result Owner → List Holder → List Holder
with_lease (ok lease) hs = leased lease ∷ hs
with_lease (err e) hs = hs

abbrev with_maintenance : Result (Unit {0}) → List Holder → List Holder
with_maintenance (ok u) hs = maintaining ∷ hs
with_maintenance (err e) hs = hs

module _ {W : Type 0} (dir : Directory W) (held : W → Bool) (active : W → Option Record) where
  -- One operation of some process, the death of a holder, or a change that touches neither the
  -- lock nor the file.
  pub data Step : List Holder → W → List Holder → W → Type 0 where
    acquiring :
        (owner : Owner) (hs : List Holder) (w : W)
        → Step hs w (with_lease (acquire dir owner w).0 hs) (acquire dir owner w).1
    maintained :
        (hs : List Holder) (w : W)
        → Step hs w (with_maintenance (maintenance_guard dir w).0 hs) (maintenance_guard dir w).1
    binding :
        (i group : ℕ) (lease : Owner) (hs : List Holder) (w : W)
        → get_elem? hs i ≡ some (leased lease)
        → Step hs w
            (set hs i (leased (bind_process_group dir lease group w).1))
            (bind_process_group dir lease group w).2
    finishing :
        (i : ℕ) (lease : Owner) (reaped confirmed : Bool) (hs : List Holder) (w : W)
        → get_elem? hs i ≡ some (leased lease)
        → Step hs w (without i hs) (finish dir lease reaped confirmed w).1
    dying :
        (i : ℕ) (h : Holder) (hs : List Holder) (w : W)
        → get_elem? hs i ≡ some h
        → Step hs w (without i hs) (dir.unlock w)
    acknowledging :
        (attempt : Str) (uid : ℕ) (quiescent : Action W Bool) (hs : List Holder) (w : W)
        → Step hs w hs (acknowledge dir attempt uid quiescent w).1
    elsewhere :
        (hs : List Holder) (w w' : W) → held w' ≡ held w → active w' ≡ active w → Step hs w hs w'

  pub data Reach (hs : List Holder) (w : W) : List Holder → W → Type 0 where
    here : Reach hs w hs w
    next : {is js : List Holder} {v x : W} → Reach hs w is v → Step is v js x → Reach hs w js x

  -- What the file says for the one holder: its attempt is recorded for a lease, and nothing is for
  -- maintenance.
  abbrev pub Reserves : Holder → Option Record → Type 0
  Reserves (leased lease) x = (r : Record) × (x ≡ some r) × (r.owner.attempt_id ≡ lease.attempt_id)
  Reserves maintaining x = x ≡ none

  -- There is at most one holder, who has the lock.
  abbrev pub Exclusive : List Holder → W → Type 0
  Exclusive [] w = Unit
  Exclusive (h ∷ []) w = (held w ≡ true) × Reserves h (active w)
  Exclusive (h ∷ i ∷ hs) w = ⊥

  module _ (law : IsLawful dir held active) where
    -- A holder's lock keeps the others out.
    kept-Exclusive :
        (hs : List Holder) (w w' : W)
        → Exclusive hs w
        → Fixed dir held active law (held w) (active w) w' ⊎ (held w ≡ false)
        → Exclusive hs w'
    kept-Exclusive [] w w' v q = tt
    kept-Exclusive (h ∷ []) w w' v (inl same) = (same.0 ∙ v.0, subst (Reserves h) (sym same.1) v.1)
    kept-Exclusive (h ∷ []) w w' v (inr free) = absurd (ground (arith, v.0, free))
    kept-Exclusive (h ∷ i ∷ hs) w w' v q = v

    acquiring-Exclusive :
        (owner : Owner) (hs : List Holder) (w : W)
        → Exclusive hs w
        → (r : Result Owner) (w' : W) → Acquired dir held active law (held w) (active w) owner r w'
        → Exclusive (with_lease r hs) w'
    acquiring-Exclusive owner [] w v (ok lease) w' (free, fresh, (lock, is), same) =
        (lock, (current_record owner, is, ap (λ (o : Owner). o.attempt_id) (sym same)))
    acquiring-Exclusive owner (h ∷ []) w v (ok lease) w' q = absurd (ground (arith, v.0, q.0))
    acquiring-Exclusive owner (h ∷ i ∷ hs) w v (ok lease) w' q = v
    acquiring-Exclusive owner hs w v (err e) w' (inl same) = kept-Exclusive hs w w' v (inl same)
    acquiring-Exclusive owner hs w v (err e) w' (inr free) = kept-Exclusive hs w w' v (inr free.0)

    maintenance-Exclusive :
        (hs : List Holder) (w : W)
        → Exclusive hs w
        → (r : Result (Unit {0})) (w' : W) → Maintained dir held active law (held w) (active w) r w'
        → Exclusive (with_maintenance r hs) w'
    maintenance-Exclusive [] w v (ok u) w' (free, fresh, (lock, is)) = (lock, is ∙ fresh)
    maintenance-Exclusive (h ∷ []) w v (ok u) w' q = absurd (ground (arith, v.0, q.0))
    maintenance-Exclusive (h ∷ i ∷ hs) w v (ok u) w' q = v
    maintenance-Exclusive hs w v (err e) w' q = kept-Exclusive hs w w' v q

    -- The lease keeps its attempt, and the file has the old group or the new one.
    bind-Reserves :
        (lease : Owner) (group : ℕ) (w : W)
        → (held w ≡ true) × Reserves (leased lease) (active w)
        → (held (bind_process_group dir lease group w).2 ≡ true)
          × Reserves
              (leased (bind_process_group dir lease group w).1)
              (active (bind_process_group dir lease group w).2)
    unfolding bind_process_group
    bind-Reserves lease group w (lock, (r, is, same)) =
        elim (Bool-cases (leb group 1 || ltb (2 ^ 31 - 1) group)) [
          | inl bad ↦ rw bad (lock, (r, is, same))
          | inr good ↦ rw good (
              let new = current_record (record lease { process_group = group }) in
              (
                law.write_held new w ∙ lock,
                elim (law.write_err new w) [
                  | inl old ↦ (r, old ∙ is, same)
                  | inr now ↦ (new, now, refl)
                ],
              ))
        ]

    removed-Exclusive :
        (i : ℕ) (hs : List Holder) (h : Holder) (w w' : W)
        → Exclusive hs w
        → get_elem? hs i ≡ some h
        → Exclusive (without i hs) w'
    removed-Exclusive i [] h w w' v e = tt
    removed-Exclusive zero (h ∷ []) k w w' v e = tt
    removed-Exclusive (suc i) (h ∷ []) k w w' v e = absurd (ground (arith, e))
    removed-Exclusive i (h ∷ j ∷ hs) k w w' v e = absurd v

    binding-Exclusive :
        (i group : ℕ) (lease : Owner) (hs : List Holder) (w : W)
        → Exclusive hs w
        → get_elem? hs i ≡ some (leased lease)
        → Exclusive
            (set hs i (leased (bind_process_group dir lease group w).1))
            (bind_process_group dir lease group w).2
    binding-Exclusive i group lease [] w v e = tt
    binding-Exclusive zero group lease (h ∷ []) w v e =
        let is : h ≡ leased lease = ground (arith, e) in
        bind-Reserves lease group w (v.0, subst (λ k. Reserves k (active w)) is v.1)
    binding-Exclusive (suc i) group lease (h ∷ []) w v e = absurd (ground (arith, e))
    binding-Exclusive i group lease (h ∷ j ∷ hs) w v e = absurd v

    Step-Exclusive :
        {hs : List Holder} {w : W} {is : List Holder} {w' : W}
        → Step hs w is w'
        → Exclusive hs w
        → Exclusive is w'
    Step-Exclusive (acquiring owner hs w) v =
        acquiring-Exclusive owner hs w v (acquire dir owner w).0 (acquire dir owner w).1
          ((acquire-Acquired dir held active law (held w) (active w) owner).at w (refl, refl))
    Step-Exclusive (maintained hs w) v =
        maintenance-Exclusive hs w v (maintenance_guard dir w).0 (maintenance_guard dir w).1
          ((maintenance-Maintained dir held active law (held w) (active w)).at w (refl, refl))
    Step-Exclusive (binding i group lease hs w e) v = binding-Exclusive i group lease hs w v e
    Step-Exclusive (finishing i lease reaped confirmed hs w e) v =
        removed-Exclusive i hs (leased lease) w (finish dir lease reaped confirmed w).1 v e
    Step-Exclusive (dying i h hs w e) v = removed-Exclusive i hs h w (dir.unlock w) v e
    Step-Exclusive (acknowledging attempt uid quiescent hs w) v =
        kept-Exclusive hs w (acknowledge dir attempt uid quiescent w).1 v (
          (acknowledge-Blocked dir held active law (held w) (active w) attempt uid quiescent).at w
            (refl, refl))
    Step-Exclusive (elsewhere hs w w' same_lock same_file) v =
        kept-Exclusive hs w w' v (inl (same_lock, same_file))

    -- Whatever
    pub Reach-Exclusive :
        {hs : List Holder} {w : W} {is : List Holder} {w' : W}
        → Exclusive hs w
        → Reach hs w is w'
        → Exclusive is w'
    Reach-Exclusive v here = v
    Reach-Exclusive v (next r s) = Step-Exclusive s (Reach-Exclusive v r)
