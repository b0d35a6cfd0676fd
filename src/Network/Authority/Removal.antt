-- ===== src/Network/Authority/Removal.antt =====
-- When a reservation is taken away: maintenance, `finish` and `acknowledge`.
use openfortivpn.Base.{
  ap, refl, ◌≡◌, ◌⊎◌, inl, inr, Bool, true, false, Option, none, ℕ, some, not, arith, ◌||◌, ◌∙◌,
}
use openfortivpn.Base.Text.{Str, str_equality}
use openfortivpn.Base.Error.{Result, ok, err, recovery_required}
use openfortivpn.Base.Action.{
  Action, Ensures, Ensures-bind, Ensures-refuse_if, refuse_if, ◌>>◌, guarded,
}
use openfortivpn.Network.Authority.{
  Record, Directory, maintenance_guard, acknowledge, check_free, Owner, settle, owner_same,
  remove_record, is_recorded, finish, inspect,
}
use openfortivpn.Network.Authority.Exclusive.{
  IsLawful, Fixed, Locked, Free, guard-Locked, check_free-Free, holding-Ensures, Shows, Inspected,
  inspect-Inspected,
}

module _ {W : Type 0} (dir : Directory W) (held : W → Bool) (active : W → Option Record)
    (law : IsLawful dir held active) where
  -- Maintenance begins only where the lock was free and nothing was reserved.
  abbrev pub Maintained : Bool → Option Record → Result (Unit {0}) → W → Type 0
  Maintained h x (ok u) w = (h ≡ false) × (x ≡ none) × Fixed dir held active law true x w
  Maintained h x (err e) w = Fixed dir held active law h x w ⊎ (h ≡ false)

  pub maintenance-Maintained :
      (h : Bool) (x : Option Record)
      → Ensures (Fixed dir held active law h x) (Maintained h x) (maintenance_guard dir)
  unfolding maintenance_guard
  maintenance-Maintained h x =
      Ensures-bind (Locked dir held active law h x) (guard-Locked dir held active law h x)
        (λ u. record {
          at = λ w p.
              (holding-Ensures dir held active law (Free dir held active law true x)
                  (λ r w'. (h ≡ false) → Maintained h x r w') (check_free dir)
                  (check_free-Free dir held active law true x) (λ u w' q free. (free, q.1, q.0))
                  (λ e w' q free. inr free)).at
                w p.1 p.0;
        })
        (λ e w p. inl p)

  pub acknowledge-Blocked :
      (h : Bool) (x : Option Record) (attempt : Str) (uid : ℕ) (quiescent : Action W Bool)
      → Ensures
          (Fixed dir held active law h x)
          (λ r w. Fixed dir held active law h x w ⊎ (h ≡ false))
          (acknowledge dir attempt uid quiescent)
  unfolding acknowledge
  acknowledge-Blocked h x attempt uid quiescent =
      Ensures-bind (Locked dir held active law h x) (guard-Locked dir held active law h x)
        (λ u. record { at = λ w p. inr p.0 }) (λ e w p. inl p)

  -- The file changes for this reason only.
  abbrev pub Because : Type 0 → Option Record → Result (Unit {0}) → W → Type 0
  Because C x (ok u) w = C
  Because C x (err e) w = (active w ≡ x) ⊎ C

  because : (C : Type 0) (x : Option Record) (r : Result (Unit {0})) (w : W) → C → Because C x r w
  because C x (ok u) w c = c
  because C x (err e) w c = inr c

  -- The file names the lease's owner, and the engine is reaped and the cleanup confirmed.
  abbrev pub Settled : Owner → Bool → Bool → Option Record → Type 0
  Settled lease reaped confirmed x =
      (reaped ≡ true)
      × (confirmed ≡ true)
      × ((r : Record) × (x ≡ some r) × (owner_same r.owner lease ≡ true))

  named_owner :
      (lease : Owner) (x : Option Record) (o : Option Owner)
      → Shows dir held active law o x
      → not (is_recorded lease o) ≡ false
      → (r : Record) × (x ≡ some r) × (owner_same r.owner lease ≡ true)
  unfolding is_recorded
  named_owner lease x none s e = absurd (ground (arith, e))
  named_owner lease x (some o) (r, is, same) e =
      (r, is, ground (arith, e, ap (λ (k : Owner). owner_same k lease) same))

  -- A test on constants: what was known stays known.
  tested :
      {P : W → Type 0} (bad : Bool)
      → Ensures P (λ r w. P w × (r ≡ ok tt → bad ≡ false)) (refuse_if bad recovery_required)
  tested bad = Ensures-refuse_if bad recovery_required

  refuse_if-inspect :
      (h : Bool) (x : Option Record) (bad : Bool)
      → Ensures
          (Fixed dir held active law h x)
          (λ r w.
            Inspected dir held active law h x r w × ((o : Option Owner) → r ≡ ok o → bad ≡ false))
          (refuse_if bad recovery_required >> inspect dir)
  refuse_if-inspect h x bad =
      Ensures-bind (λ r w. Fixed dir held active law h x w × (r ≡ ok tt → bad ≡ false)) (tested bad)
        (λ u. record {
          at = λ w p. ((inspect-Inspected dir held active law h x).at w p.0, λ o e. p.1 refl);
        })
        (λ e w p. (p.0, λ o k. cc))

  settle-Because :
      (h : Bool) (x : Option Record) (lease : Owner) (reaped confirmed : Bool)
      → Ensures
          (Fixed dir held active law h x)
          (Because (Settled lease reaped confirmed x) x)
          (settle dir lease reaped confirmed)
  unfolding settle
  settle-Because h x lease reaped confirmed =
      let bad = not reaped || not confirmed in
      let C = Settled lease reaped confirmed x in
      Ensures-bind
        (λ r w.
          Inspected dir held active law h x r w × ((o : Option Owner) → r ≡ ok o → bad ≡ false))
        (refuse_if-inspect h x bad)
        (λ o.
          Ensures-bind (Because C x)
            (Ensures-bind
              (λ r w.
                (Inspected dir held active law h x (ok o) w
                  × ((k : Option Owner) → ok o ≡ ok k → bad ≡ false))
                × (r ≡ ok tt → not (is_recorded lease o) ≡ false))
              (tested (not (is_recorded lease o)))
              (λ u. record {
                at = λ w p. because C x (dir.idle w).0 (dir.idle w).1 (
                    let good = p.0.1 o refl in
                    (
                      ground (arith, good),
                      ground (arith, good),
                      named_owner lease x o p.0.0.1 (p.1 refl),
                    ));
              })
              (λ e w p. inl p.0.0.0.1))
            (λ u. record {
              at = λ w c. because C x (remove_record dir w).0 (remove_record dir w).1 c;
            })
            (λ e w p. p))
        (λ e w p. inl p.0.1)

  -- `finish` changes the file only for a lease whose engine is reaped and whose cleanup is
  -- confirmed, and only where the file names its owner; it succeeds only then.
  pub finish_settles :
      (lease : Owner) (reaped confirmed : Bool) (w : W)
      → Because
          (Settled lease reaped confirmed (active w))
          (active w)
          (finish dir lease reaped confirmed w).0
          (finish dir lease reaped confirmed w).1
  unfolding finish guarded
  finish_settles lease reaped confirmed w =
      let s = settle dir lease reaped confirmed w in
      dropped s.0 s.1
        ((settle-Because (held w) (active w) lease reaped confirmed).at w (refl, refl))
    where
      dropped :
          (r : Result (Unit {0})) (v : W)
          → Because (Settled lease reaped confirmed (active w)) (active w) r v
          → Because (Settled lease reaped confirmed (active w)) (active w) r (dir.unlock v)
      dropped (ok u) v c = c
      dropped (err e) v (inl same) = inl (law.unlock_active v ∙ same)
      dropped (err e) v (inr c) = inr c
