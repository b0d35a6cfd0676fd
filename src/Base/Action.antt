-- ===== src/Base/Action.antt =====
-- Fallible calls on a world `W` that keep what they have changed when they fail, and what they
-- ensure: a precondition on the world, and a postcondition on the result and the world.
use openfortivpn.Base.{◌≡◌, refl, Bool, true, false}
use openfortivpn.Base.Error.{Result, ok, err, ErrorCode}

abbrev pub Action {ℓ κ} : Type ℓ → Type κ → Type (ℓ ⊔ κ)
Action W A = W → Result A × W

module _ {ℓ κ} {W : Type ℓ} {A : Type κ} where
  unfoldable pub done : A → Action W A
  done a w = (ok a, w)

  unfoldable pub refuse : ErrorCode → Action W A
  refuse e w = (err e, w)

  unfoldable pub answer : Result A → Action W A
  answer r w = (r, w)

module _ {ℓ κ μ} {W : Type ℓ} {A : Type κ} {B : Type μ} where
  unfoldable pub proceed : Result A → (A → Action W B) → Action W B
  proceed (ok a) f w = f a w
  proceed (err e) f w = (err e, w)

infixl 5 ◌>>=◌ ◌>>◌
unfoldable pub ◌>>=◌ {ℓ κ μ} :
    {W : Type ℓ} {A : Type κ} {B : Type μ} → Action W A → (A → Action W B) → Action W B
unfolding done refuse answer proceed
◌>>=◌ m f w = let (r, w') = m w in proceed r f w'

abbrev pub ◌>>◌ {ℓ κ μ} :
    {W : Type ℓ} {A : Type κ} {B : Type μ} → Action W A → Action W B → Action W B
m >> k = m >>= λ _. k

-- `if bad { return Err(...) }`
unfoldable pub refuse_if {ℓ} : {W : Type ℓ} → Bool → ErrorCode → Action W (Unit {0})
refuse_if true e w = (err e, w)
refuse_if false e w = (ok tt, w)

module _ {W : Type 0} where
  abbrev pub drop_on_err : {A : Type 0} → (W → W) → Result A → W → Result A × W
  drop_on_err unlock (ok a) w = (ok a, w)
  drop_on_err unlock (err e) w = (err e, unlock w)

  -- A guard that is dropped when the rest fails, and stays when it succeeds.
  unfoldable pub holding : {A : Type 0} → (W → W) → Action W A → Action W A
  holding unlock m w = let (r, w') = m w in drop_on_err unlock r w'

  -- A guard that is dropped at the end.
  unfoldable pub guarded : {A : Type 0} → (W → W) → Action W A → Action W A
  guarded unlock m w = let (r, w') = m w in (r, unlock w')

pub record Ensures {ℓ κ μ ν} {W : Type ℓ} {A : Type κ} (P : W → Type μ) (Q : Result A → W → Type ν)
    (m : Action W A) : Type (ℓ ⊔ μ ⊔ ν) where
  pub at : (w : W) → P w → Q (m w).0 (m w).1

module _ {ℓ κ μ ν ξ π} {W : Type ℓ} {A : Type κ} {B : Type μ} where
  Ensures-proceed :
      (Q : Result A → W → Type ν) (R : Result B → W → Type ξ) (f : A → Action W B)
      → ((a : A) → Ensures (Q (ok a)) R (f a))
      → ((e : ErrorCode) (w : W) → Q (err e) w → R (err e) w)
      → (r : Result A) (w : W) → Q r w
      → R (proceed r f w).0 (proceed r f w).1
  unfolding proceed
  Ensures-proceed Q R f kf ke (ok a) w q = (kf a).at w q
  Ensures-proceed Q R f kf ke (err e) w q = ke e w q

  -- A sequence: what the first call ensures on success is what the rest needs.
  pub Ensures-bind :
      {P : W → Type π} (Q : Result A → W → Type ν) {R : Result B → W → Type ξ} {m : Action W A}
      {f : A → Action W B}
      → Ensures P Q m
      → ((a : A) → Ensures (Q (ok a)) R (f a))
      → ((e : ErrorCode) (w : W) → Q (err e) w → R (err e) w)
      → Ensures P R (m >>= f)
  unfolding ◌>>=◌
  Ensures-bind Q {R} {m} {f} km kf ke = record {
    at = λ w p. Ensures-proceed Q R f kf ke (m w).0 (m w).1 (km.at w p);
  }

module _ {ℓ κ μ ν} {W : Type ℓ} {A : Type κ} {P : W → Type μ} {Q : Result A → W → Type ν} where
  pub Ensures-done : (a : A) → ((w : W) → P w → Q (ok a) w) → Ensures P Q (done a)
  unfolding done
  Ensures-done a h = record { at = h }

  pub Ensures-refuse : (e : ErrorCode) → ((w : W) → P w → Q (err e) w) → Ensures P Q (refuse e)
  unfolding refuse
  Ensures-refuse e h = record { at = h }

-- A test that lets the world be, and whose success says that the test failed.
pub Ensures-refuse_if {ℓ μ} :
    {W : Type ℓ} {P : W → Type μ} (bad : Bool) (e : ErrorCode)
    → Ensures P (λ r w. P w × (r ≡ ok tt → bad ≡ false)) (refuse_if bad e)
unfolding refuse_if
Ensures-refuse_if true e = record { at = λ w p. (p, λ h. cc) }
Ensures-refuse_if false e = record { at = λ w p. (p, λ h. refl) }
