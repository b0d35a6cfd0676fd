-- ===== src/Network/Keeps.antt =====
-- Properties of the snapshot and the world that an operation keeps, whether it returns or fails: one
-- rule for each way to build an operation.
use openfortivpn.Base.{
  ◌≡◌, refl, Bool, true, false, Option, none, some, nat_equality, option_equality,
}
use openfortivpn.Base.Text.{str_equality}
use openfortivpn.Base.Error.{Result, ok, err, ErrorCode}
use openfortivpn.Network.Model.{Snapshot, plan_equality, phase_equality}
use openfortivpn.Network.Monad.{
  M, ◌>>=◌, pure, fail, lift, gets, on_option, on_result, choose, continue,
}

pub record Keeps {W A : Type 0} (P : Snapshot → W → Type 0) (m : M W A) : Type 0 where
  pub at : (s : Snapshot) (w : W) → P s w → P (m s w).1 (m s w).2

module _ {W A : Type 0} {P : Snapshot → W → Type 0} where
  pub Keeps-pure : (a : A) → Keeps P (pure a)
  unfolding pure
  Keeps-pure a = record { at = λ s w h. h }

  pub Keeps-fail : (e : ErrorCode) → Keeps P (fail {A = A} e)
  unfolding fail
  Keeps-fail e = record { at = λ s w h. h }

  pub Keeps-lift : (r : Result A) → Keeps P (lift r)
  unfolding lift
  Keeps-lift r = record { at = λ s w h. h }

  pub Keeps-gets : (f : Snapshot → A) → Keeps P (gets f)
  unfolding gets
  Keeps-gets f = record { at = λ s w h. h }

  pub Keeps-choose :
      (b : Bool) (m n : M W A)
      → (b ≡ true → Keeps P m)
      → (b ≡ false → Keeps P n)
      → Keeps P (choose b m n)
  unfolding choose
  Keeps-choose true m n km kn = km refl
  Keeps-choose false m n km kn = kn refl

module _ {W A B : Type 0} {P : Snapshot → W → Type 0} where
  pub Keeps-on_option :
      (o : Option A) (m : M W B) (f : A → M W B)
      → Keeps P m
      → ((a : A) → o ≡ some a → Keeps P (f a))
      → Keeps P (on_option o m f)
  unfolding on_option
  Keeps-on_option none m f km kf = km
  Keeps-on_option (some a) m f km kf = kf a refl

  pub Keeps-on_result :
      (r : Result A) (f : ErrorCode → M W B) (g : A → M W B)
      → ((e : ErrorCode) → Keeps P (f e))
      → ((a : A) → Keeps P (g a))
      → Keeps P (on_result r f g)
  unfolding on_result
  Keeps-on_result (err e) f g kf kg = kf e
  Keeps-on_result (ok a) f g kf kg = kg a

  Keeps-continue :
      (r : Result A) (f : A → M W B) → ((a : A) → Keeps P (f a)) → Keeps P (continue r f)
  unfolding continue
  Keeps-continue (ok a) f kf = record { at = (kf a).at }
  Keeps-continue (err e) f kf = record { at = λ s w h. h }

  pub Keeps-bind :
      (m : M W A) (f : A → M W B) → Keeps P m → ((a : A) → Keeps P (f a)) → Keeps P (m >>= f)
  unfolding ◌>>=◌
  Keeps-bind m f km kf = record {
    at = λ s w h. let (r, s', w') = m s w in (Keeps-continue r f kf).at s' w' (km.at s w h);
  }

pub ruleset keeps_rules = (
  Keeps-pure, Keeps-fail, Keeps-lift, Keeps-gets, Keeps-choose, Keeps-on_option, Keeps-on_result,
  Keeps-bind,
)
