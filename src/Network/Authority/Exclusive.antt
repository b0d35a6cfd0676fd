-- ===== src/Network/Authority/Exclusive.antt =====
-- The machine lock and the reservation: at most one holder, and no reservation is lost.
use openfortivpn.Base.{
  if◌then◌else◌, ◌≡◌, refl, ◌⊎◌, Bool, true, false, Option, some, sym, ◌∙◌, none, is_some, arith,
}
use openfortivpn.Base.Text.{str_equality}
use openfortivpn.Base.Error.{Result, ok, err, ErrorCode, recovery_required}
use openfortivpn.Base.Action.{
  Ensures, Ensures-bind, Ensures-done, Ensures-refuse_if, Ensures-refuse, Action, done, refuse,
  holding, drop_on_err,
}
use openfortivpn.Network.Authority.{
  Record, Directory, guard, Owner, inspected, inspect, check_free, bad_record,
}

-- What the calls do to the lock and the file: `held` says that somebody has the lock, and `active`
-- is the record in the file. A write or a removal that fails leaves the old file or the new one.
pub record IsLawful {W : Type 0} (dir : Directory W) (held : W → Bool) (active : W → Option Record)
    : Type 0 where
  pub barrier_held : (w : W) → held (dir.barrier w).1 ≡ held w
  pub barrier_active : (w : W) → active (dir.barrier w).1 ≡ active w
  pub lock_ok :
      (w : W) → (dir.try_lock w).0 ≡ ok tt → (held w ≡ false) × (held (dir.try_lock w).1 ≡ true)
  pub lock_err :
      (w : W) (e : ErrorCode) → (dir.try_lock w).0 ≡ err e → held (dir.try_lock w).1 ≡ held w
  pub lock_active : (w : W) → active (dir.try_lock w).1 ≡ active w
  pub unlock_active : (w : W) → active (dir.unlock w) ≡ active w
  pub read_held : (w : W) → held (dir.read w).1 ≡ held w
  pub read_active : (w : W) → active (dir.read w).1 ≡ active w
  pub read_ok : (w : W) (r : Option Record) → (dir.read w).0 ≡ ok r → r ≡ active w
  pub idle_held : (w : W) → held (dir.idle w).1 ≡ held w
  pub idle_active : (w : W) → active (dir.idle w).1 ≡ active w
  pub write_held : (r : Record) (w : W) → held (dir.write r w).1 ≡ held w
  pub write_ok :
      (r : Record) (w : W) → (dir.write r w).0 ≡ ok tt → active (dir.write r w).1 ≡ some r
  pub write_err :
      (r : Record) (w : W)
      → (active (dir.write r w).1 ≡ active w) ⊎ (active (dir.write r w).1 ≡ some r)
  pub remove_held : (w : W) → held (dir.remove_file w).1 ≡ held w

module _ {W : Type 0} (dir : Directory W) (held : W → Bool) (active : W → Option Record)
    (law : IsLawful dir held active) where
  -- The lock and the file are in a given state.
  abbrev pub Fixed : Bool → Option Record → W → Type 0
  Fixed h x w = (held w ≡ h) × (active w ≡ x)

  -- After an attempt to take the lock.
  abbrev pub Locked : Bool → Option Record → Result (Unit {0}) → W → Type 0
  Locked h x (ok u) w = (h ≡ false) × Fixed true x w
  Locked h x (err e) w = Fixed h x w

  -- What `inspect` answers is the owner in the file.
  abbrev pub Shows : Option Owner → Option Record → Type 0
  Shows none x = x ≡ none
  Shows (some o) x = (r : Record) × (x ≡ some r) × (r.owner ≡ o)

  abbrev pub Inspected : Bool → Option Record → Result (Option Owner) → W → Type 0
  Inspected h x (ok o) w = Fixed h x w × Shows o x
  Inspected h x (err e) w = Fixed h x w

  -- Nothing was reserved.
  abbrev pub Free : Bool → Option Record → Result (Unit {0}) → W → Type 0
  Free h x (ok u) w = Fixed h x w × (x ≡ none)
  Free h x (err e) w = Fixed h x w

  module _ (h : Bool) (x : Option Record) where
    barrier-Fixed : Ensures (Fixed h x) (λ r. Fixed h x) dir.barrier
    barrier-Fixed = record { at = λ w p. (law.barrier_held w ∙ p.0, law.barrier_active w ∙ p.1) }

    lock-Locked : Ensures (Fixed h x) (Locked h x) dir.try_lock
    lock-Locked = record { at = λ w p. locked w p (dir.try_lock w).0 refl }
      where
        locked :
            (w : W)
            → Fixed h x w
            → (r : Result (Unit {0})) → (dir.try_lock w).0 ≡ r
            → Locked h x r (dir.try_lock w).1
        locked w p (ok tt) e =
            (sym p.0 ∙ (law.lock_ok w e).0, ((law.lock_ok w e).1, law.lock_active w ∙ p.1))
        locked w p (err c) e = (law.lock_err w c e ∙ p.0, law.lock_active w ∙ p.1)

    pub guard-Locked : Ensures (Fixed h x) (Locked h x) (guard dir)
    unfolding guard
    guard-Locked = Ensures-bind (λ r. Fixed h x) barrier-Fixed (λ u. lock-Locked) (λ e w p. p)

    abbrev Read : Result (Option Record) → W → Type 0
    Read (ok r) w = Fixed h x w × (r ≡ x)
    Read (err e) w = Fixed h x w

    read-Read : Ensures (Fixed h x) Read dir.read
    read-Read = record { at = λ w p. was_read w p (dir.read w).0 refl }
      where
        was_read :
            (w : W)
            → Fixed h x w
            → (r : Result (Option Record)) → (dir.read w).0 ≡ r
            → Read r (dir.read w).1
        was_read w p (ok r) e =
            ((law.read_held w ∙ p.0, law.read_active w ∙ p.1), law.read_ok w r e ∙ p.1)
        was_read w p (err c) e = (law.read_held w ∙ p.0, law.read_active w ∙ p.1)

    inspected-Inspected :
        (r : Option Record) → Ensures (λ w. Fixed h x w × (r ≡ x)) (Inspected h x) (inspected r)
    unfolding inspected
    inspected-Inspected none = Ensures-done none (λ w p. (p.0, sym p.1))
    inspected-Inspected (some r) = by_test (bad_record r)
      where
        by_test :
            (b : Bool)
            → Ensures
                (λ w. Fixed h x w × (some r ≡ x))
                (Inspected h x)
                (if b then refuse recovery_required else done (some r.owner))
        by_test true = Ensures-refuse recovery_required (λ w p. p.0)
        by_test false = Ensures-done (some r.owner) (λ w p. (p.0, (r, sym p.1, refl)))

    pub inspect-Inspected : Ensures (Fixed h x) (Inspected h x) (inspect dir)
    unfolding inspect
    inspect-Inspected =
        Ensures-bind Read
          (Ensures-bind (λ r. Fixed h x) barrier-Fixed (λ u. read-Read) (λ e w p. p))
          inspected-Inspected (λ e w p. p)

    idle-Fixed : Ensures (Fixed h x) (λ r. Fixed h x) dir.idle
    idle-Fixed = record { at = λ w p. (law.idle_held w ∙ p.0, law.idle_active w ∙ p.1) }

    free_of : (o : Option Owner) → Shows o x → is_some o ≡ false → x ≡ none
    free_of none s e = s
    free_of (some o) s e = absurd (ground (arith, e))

    idle-Free : Ensures (λ w. Fixed h x w × (x ≡ none)) (Free h x) dir.idle
    idle-Free = record { at = λ w p. after w p (dir.idle w).0 }
      where
        after :
            (w : W) → Fixed h x w × (x ≡ none) → (r : Result (Unit {0})) → Free h x r (dir.idle w).1
        after w p (ok u) = (idle-Fixed.at w p.0, p.1)
        after w p (err e) = idle-Fixed.at w p.0

    pub check_free-Free : Ensures (Fixed h x) (Free h x) (check_free dir)
    unfolding check_free
    check_free-Free =
        Ensures-bind (Inspected h x) inspect-Inspected
          (λ o.
            Ensures-bind (λ r w. (Fixed h x w × Shows o x) × (r ≡ ok tt → is_some o ≡ false))
              (Ensures-refuse_if (is_some o) recovery_required)
              (λ u. record { at = λ w p. idle-Free.at w (p.0.0, free_of o p.0.1 (p.1 refl)) })
              (λ e w p. p.0.0))
          (λ e w p. p)

    -- After the write of a reservation.
    abbrev pub Written : Record → Result (Unit {0}) → W → Type 0
    Written r (ok u) w = Fixed h (some r) w
    Written r (err e) w = held w ≡ h

    pub write-Written : (r : Record) → Ensures (Fixed h x) (Written r) (dir.write r)
    write-Written r = record { at = λ w p. written w p (dir.write r w).0 refl }
      where
        written :
            (w : W)
            → Fixed h x w
            → (a : Result (Unit {0})) → (dir.write r w).0 ≡ a
            → Written r a (dir.write r w).1
        written w p (ok tt) e = (law.write_held r w ∙ p.0, law.write_ok r w e)
        written w p (err c) e = law.write_held r w ∙ p.0

  pub holding-Ensures :
      {A : Type 0} {P : W → Type 0} (Q R : Result A → W → Type 0) (m : Action W A)
      → Ensures P Q m
      → ((a : A) (w : W) → Q (ok a) w → R (ok a) w)
      → ((e : ErrorCode) (w : W) → Q (err e) w → R (err e) (dir.unlock w))
      → Ensures P R (holding dir.unlock m)
  unfolding holding
  holding-Ensures {A} Q R m km ka ke = record { at = λ w p. held_on (m w).0 (m w).1 (km.at w p) }
    where
      held_on :
          (r : Result A) (w : W)
          → Q r w
          → R (drop_on_err dir.unlock r w).0 (drop_on_err dir.unlock r w).1
      held_on (ok a) w q = ka a w q
      held_on (err e) w q = ke e w q
