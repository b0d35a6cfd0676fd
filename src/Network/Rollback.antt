-- ===== src/Network/Rollback.antt =====
-- `Coordinator::apply_or_rollback` of crates/manager-core/src/network.rs.
use openfortivpn.Base.{nat_equality, option_equality}
use openfortivpn.Base.Text.{Str, str_equality}
use openfortivpn.Base.Error.{Result, ok, recovery_required}
use openfortivpn.Network.Model.{plan_equality, phase_equality}
use openfortivpn.Network.Monad.{Backend, Journal, M, ◌>>=◌, pure, fail, on_result}
use openfortivpn.Network.Apply.{apply}
use openfortivpn.Network.Release.{release}

module _ {W A : Type 0} where
  -- A call whose error is a value.
  unfoldable pub attempt_action : M W A → M W (Result A)
  attempt_action m s w = let (r, s', w') = m s w in (ok r, s', w')

module _ {W : Type 0} (backend : Backend W) (journal : Journal W) where
  unfoldable pub apply_or_rollback : Str → M W (Unit {0})
  apply_or_rollback attempt = attempt_action (apply backend journal attempt) >>= λ applied.
      on_result applied
        (λ e. attempt_action (release backend journal attempt) >>= λ released.
          on_result released (λ _. fail recovery_required) (λ _. fail e))
        pure
