-- ===== src/Connect.antt =====
-- Connect admission: crates/manager-core/src/connection_service.rs.
use openfortivpn.Base.{
  refl, arith, ◌≡◌, some, none, true, false, [], ◌∷◌, inl, inr, Bool-cases, Option-cases,
  if◌then◌else◌, Bool, Option, List, not, ◌&&◌, ◌||◌, ◌==◌, ltb, any, filter, is_some_and,
}
use openfortivpn.Base.Error.{
  ok, err, Result, invalid_input, shutting_down, recovery_required, profile_busy, profile_not_found,
  network_conflict,
}
use openfortivpn.Base.Text.{Str, len, is_control, str_equality}
pub mod Admission

pub data StartOrigin : Type 0 where
  user startup automatic : StartOrigin

pub data OwnershipState : Type 0 where
  healthy starting_reservation stopping needs_recovery : OwnershipState

pub record ConnectionOwner : Type 0 where
  pub profile_id : Str
  pub instance_id : Option Str
  pub state : OwnershipState

pub record ConnectFacts : Type 0 where
  pub profile_id : Str
  pub profile_exists : Bool
  pub shutting_down : Bool
  pub repository_recovery_required : Bool
  pub repository_restoring : Bool
  pub profile_mutating : Bool
  pub orphaned_recovery : Bool
  pub owners : List ConnectionOwner

pub data ConnectDecision : Type 0 where
  reserve : ConnectDecision
  reuse : Str → ConnectDecision

abbrev pub is_recovering : OwnershipState → Bool
is_recovering needs_recovery = true
is_recovering _ = false

abbrev pub is_stopping : OwnershipState → Bool
is_stopping stopping = true
is_stopping _ = false

abbrev pub is_healthy : OwnershipState → Bool
is_healthy healthy = true
is_healthy _ = false

abbrev pub is_user : StartOrigin → Bool
is_user user = true
is_user _ = false

unfoldable pub is_bad_identity : Str → Bool
is_bad_identity id = id == [] || ltb 128 (len id) || any is_control id

-- The owners of the profile that is to be connected.
unfoldable pub own : ConnectFacts → List ConnectionOwner
own facts = filter (λ owner. owner.profile_id == facts.profile_id) facts.owners

-- What is decided for the owner that the profile has.
unfoldable pub admit_owned : ConnectionOwner → StartOrigin → Result ConnectDecision
admit_owned owner origin =
    if is_healthy owner.state && is_user origin
    then elim owner.instance_id [
      | none ↦ err profile_busy
      | some id ↦ if not (id == []) then ok (reuse id) else err profile_busy
    ]
    else err profile_busy

-- What is decided once the owners of the profile are known.
unfoldable pub admit_current :
    ConnectFacts → StartOrigin → List ConnectionOwner → Result ConnectDecision
unfolding admit_owned
admit_current facts origin (_ ∷ _ ∷ _) = err recovery_required
admit_current facts origin (owner ∷ []) =
    if is_stopping owner.state
    then err profile_busy
    else if any (λ other. not (other.profile_id == facts.profile_id)) facts.owners
    then err network_conflict
    else admit_owned owner origin
admit_current facts origin [] =
    if any (λ other. not (other.profile_id == facts.profile_id)) facts.owners
    then err network_conflict
    else ok reserve

-- `admit`
unfoldable pub admit : ConnectFacts → StartOrigin → Result ConnectDecision
unfolding admit_current own is_bad_identity
admit facts origin =
    if is_bad_identity facts.profile_id
    then err invalid_input
    else if facts.shutting_down
    then err shutting_down
    else if facts.repository_recovery_required
    then err recovery_required
    else if facts.repository_restoring || facts.profile_mutating
    then err profile_busy
    else if not facts.profile_exists
    then err profile_not_found
    else if facts.orphaned_recovery || any (λ owner. is_recovering owner.state) facts.owners
    then err recovery_required
    else admit_current facts origin (own facts)
