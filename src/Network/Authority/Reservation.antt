-- ===== src/Network/Authority/Reservation.antt =====
-- `ExclusiveLease::acquire` on every branch.
use openfortivpn.Base.{◌≡◌, refl, ◌⊎◌, inl, inr, Bool, true, false, Option, none, some, ◌∙◌}
use openfortivpn.Base.Error.{Result, ok, err, recovery_required}
use openfortivpn.Base.Action.{◌>>◌, done, Ensures, Ensures-bind, Ensures-done, Ensures-refuse_if}
use openfortivpn.Network.Authority.{
  Owner, Record, Directory, acquire, check_free, current_record, bad_owner,
}
use openfortivpn.Network.Authority.Exclusive.{
  IsLawful, Fixed, Locked, Free, Written, guard-Locked, check_free-Free, write-Written,
  holding-Ensures,
}

module _ {W : Type 0} (dir : Directory W) (held : W → Bool) (active : W → Option Record)
    (law : IsLawful dir held active) where
  -- Nothing has changed, or the lock was free and a reservation is as it was.
  abbrev pub Refused : Bool → Option Record → W → Type 0
  Refused h x w = Fixed dir held active law h x w ⊎ ((h ≡ false) × ((active w ≡ x) ⊎ (x ≡ none)))

  abbrev pub Acquired : Bool → Option Record → Owner → Result Owner → W → Type 0
  Acquired h x owner (ok lease) w =
      (h ≡ false)
      × (x ≡ none)
      × Fixed dir held active law true (some (current_record owner)) w
      × (lease ≡ owner)
  Acquired h x owner (err e) w = Refused h x w

  -- What is known inside of `acquire` once the lock is taken.
  abbrev Reserving : Option Record → Owner → Result Owner → W → Type 0
  Reserving x owner (ok lease) w =
      (x ≡ none) × Fixed dir held active law true (some (current_record owner)) w × (lease ≡ owner)
  Reserving x owner (err e) w = (active w ≡ x) ⊎ (x ≡ none)

  abbrev Recorded : Option Record → Owner → Result (Unit {0}) → W → Type 0
  Recorded x owner (ok u) w =
      (x ≡ none) × Fixed dir held active law true (some (current_record owner)) w
  Recorded x owner (err e) w = (active w ≡ x) ⊎ (x ≡ none)

  record-Recorded :
      (x : Option Record) (owner : Owner)
      → Ensures
          (λ w. Fixed dir held active law true x w × (x ≡ none))
          (Recorded x owner)
          (dir.write (current_record owner))
  record-Recorded x owner = record {
    at = λ w p.
        recorded w p (dir.write (current_record owner) w).0
          ((write-Written dir held active law true x (current_record owner)).at w p.0);
  }
    where
      recorded :
          (w : W)
          → Fixed dir held active law true x w × (x ≡ none)
          → (r : Result (Unit {0}))
          → Written dir held active law true x
              (current_record owner)
              r
              (dir.write (current_record owner) w).1
          → Recorded x owner r (dir.write (current_record owner) w).1
      recorded w p (ok u) q = (p.1, q)
      recorded w p (err e) q = inr p.1

  reserve-Reserving :
      (x : Option Record) (owner : Owner)
      → Ensures
          (Fixed dir held active law true x)
          (Reserving x owner)
          (check_free dir >> dir.write (current_record owner) >> done owner)
  reserve-Reserving x owner =
      Ensures-bind (Recorded x owner)
        (Ensures-bind (Free dir held active law true x) (check_free-Free dir held active law true x)
          (λ u. record-Recorded x owner) (λ e w p. inl p.1))
        (λ u. Ensures-done owner (λ w p. (p.0, p.1, refl))) (λ e w p. p)

  -- A reservation is made only where there was none and the lock was free; and a refusal leaves a
  -- reservation as it is.
  pub acquire-Acquired :
      (h : Bool) (x : Option Record) (owner : Owner)
      → Ensures (Fixed dir held active law h x) (Acquired h x owner) (acquire dir owner)
  unfolding acquire
  acquire-Acquired h x owner =
      Ensures-bind (Locked dir held active law h x)
        (Ensures-bind
          (λ r w. Fixed dir held active law h x w × (r ≡ ok tt → bad_owner owner ≡ false))
          (Ensures-refuse_if (bad_owner owner) recovery_required)
          (λ u. record { at = λ w p. (guard-Locked dir held active law h x).at w p.0 })
          (λ e w p. p.0))
        (λ u. record {
          at = λ w p.
              (holding-Ensures dir held active law (Reserving x owner)
                  (λ r w'. (h ≡ false) → Acquired h x owner r w')
                  (check_free dir >> dir.write (current_record owner) >> done owner)
                  (reserve-Reserving x owner) (λ lease w' q free. (free, q.0, q.1, q.2))
                  (λ e w' q free.
                    inr
                      (free, elim q [ inl a ↦ inl (law.unlock_active w' ∙ a) | inr n ↦ inr n ]))).at
                w p.1 p.0;
        })
        (λ e w p. inl p)

  -- On every branch of `acquire`: a lease is given only where the lock was free and nothing was
  -- reserved, and then the lock is taken and the file names the owner. A refusal leaves the lock and
  -- the file, or the lock was free and a reservation is as it was.
  pub acquire_reserves :
      (owner : Owner) (w : W)
      → Acquired (held w) (active w) owner (acquire dir owner w).0 (acquire dir owner w).1
  acquire_reserves owner w = (acquire-Acquired (held w) (active w) owner).at w (refl, refl)
