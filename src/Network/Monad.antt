-- ===== src/Network/Monad.antt =====
-- The backend and the journal of crates/manager-core/src/network.rs: they act on a state of their
-- own, `W`, and every call of theirs can fail.
use openfortivpn.Base.{◌≡◌, Bool, true, false, Option, none, some}
use openfortivpn.Base.Text.{Str, str_equality}
use openfortivpn.Base.Error.{Result, ok, err, ErrorCode}
use openfortivpn.Network.Model.{Resource, Snapshot, plan_equality, phase_equality}

-- `trait Backend`
pub record Backend (W : Type 0) : Type 0 where
  pub inspect : Resource → W → Result (Option Str) × W
  pub apply : Resource → W → Result Str × W
  pub remove : Resource → Str → W → Result (Unit {0}) × W

-- `trait Journal`
pub record Journal (W : Type 0) : Type 0 where
  pub save : Snapshot → W → Result (Unit {0}) × W

abbrev provider : {W : Type 0} → Backend W → Backend W → Resource → Backend W
provider routes dns (Resource.route _) = routes
provider routes dns (Resource.dns _) = dns

-- `PlatformBackend`: each provider meets only its own kind of resource.
unfoldable pub platform_backend : {W : Type 0} → Backend W → Backend W → Backend W
platform_backend routes dns = record {
  inspect = λ r. (provider routes dns r).inspect r;
  apply = λ r. (provider routes dns r).apply r;
  remove = λ r. (provider routes dns r).remove r;
}

-- An operation on the coordinator and the world: what was written stays after an error.
abbrev pub M : Type 0 → Type 0 → Type 0
M W A = Snapshot → W → Result A × Snapshot × W

module _ {W : Type 0} where
  unfoldable pub pure : {A : Type 0} → A → M W A
  pure a s w = (ok a, s, w)

  unfoldable pub fail : {A : Type 0} → ErrorCode → M W A
  fail e s w = (err e, s, w)

  unfoldable pub lift : {A : Type 0} → Result A → M W A
  lift r s w = (r, s, w)

  -- A value read from the snapshot.
  unfoldable pub gets : {A : Type 0} → (Snapshot → A) → M W A
  gets f s w = (ok (f s), s, w)

  -- A call on the world alone.
  unfoldable pub call : {A : Type 0} → (W → Result A × W) → M W A
  call f s w = let (r, w') = f w in (r, s, w')

  -- A call whose error is a value.
  unfoldable pub attempt_call : {A : Type 0} → (W → Result A × W) → M W (Result A)
  attempt_call f s w = let (r, w') = f w in (ok r, s, w')

  unfoldable pub update : (Snapshot → Snapshot) → M W (Unit {0})
  update f s w = (ok tt, f s, w)

  unfoldable pub choose : {A : Type 0} → Bool → M W A → M W A → M W A
  choose true m n = m
  choose false m n = n

  unfoldable pub on_option : {A B : Type 0} → Option A → M W B → (A → M W B) → M W B
  on_option none m f = m
  on_option (some a) m f = f a

  unfoldable pub on_result : {A B : Type 0} → Result A → (ErrorCode → M W B) → (A → M W B) → M W B
  on_result (err e) f g = f e
  on_result (ok a) f g = g a

  unfoldable pub continue : {A B : Type 0} → Result A → (A → M W B) → M W B
  continue (ok a) f s w = f a s w
  continue (err e) f s w = (err e, s, w)

infixl 5 ◌>>=◌ ◌>>◌
-- Opening this opens the other actions too.
unfoldable pub ◌>>=◌ : {W A B : Type 0} → M W A → (A → M W B) → M W B
unfolding pure fail lift gets call attempt_call update choose on_option on_result continue
◌>>=◌ m f s w = let (r, s', w') = m s w in continue r f s' w'

abbrev pub ◌>>◌ : {W A B : Type 0} → M W A → M W B → M W B
m >> k = m >>= λ _. k

module _ {W A B : Type 0} (m : M W A) (f : A → M W B) (s : Snapshot) (w : W) where
  pub bind_ok : (a : A) → (m s w).0 ≡ ok a → (m >>= f) s w ≡ f a (m s w).1 (m s w).2
  unfolding ◌>>=◌
  bind_ok a e = rw (e, continue)

  pub bind_err : (e : ErrorCode) → (m s w).0 ≡ err e → (m >>= f) s w ≡ (err e, (m s w).1, (m s w).2)
  unfolding ◌>>=◌
  bind_err e h = rw (h, continue)
