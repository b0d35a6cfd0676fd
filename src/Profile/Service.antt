-- ===== src/Profile/Service.antt =====
-- The use cases of crates/manager-core/src/profile_service.rs on a `ProfileRepository`.
use openfortivpn.Base.{
  some, none, true, false, [], ◌∷◌, if◌then◌else◌, Bool, List, Option, ℕ, not, ◌==◌, ◌||◌, ◌&&◌,
  leb, is_some, is_some_and, length, nat_equality,
}
use openfortivpn.Base.Error.{
  ok, err, Result, invalid_input, revision_conflict, profile_busy, reject_if, ◌>>◌, ◌>>=◌,
}
use openfortivpn.Base.Text.{Str, str_equality}
use openfortivpn.Base.Dict.{Dict, lookup, insert, remove, keys}
use openfortivpn.Profile.Model.{
  VpnProfile, ProfileView, Catalog, max_profiles, Mutation, SecretChange, replace, discard,
  SaveRequest, MissingPasswordPolicy, allow, require_when_remembering,
}
use openfortivpn.Profile.Validation.{validate_profile, certificate_pin, password}
use openfortivpn.Profile.Archive.{
  validate_portable_archive, prepare_restored_catalog, next_revision, revision_of,
}

-- `ProfileRepository`, whose calls act on a state `W`.
pub record ProfileRepository {ℓ} (W : Type ℓ) : Type ℓ where
  pub profiles : W → Catalog
  pub has_stored_secret : Str → W → Result Bool × W
  pub view : W → Str → Result ProfileView
  pub commit : Mutation → W → Result (Unit {0}) × W

-- `check_revision`
unfoldable pub check_revision : Option ℕ → ℕ → Result (Unit {0})
check_revision expected actual =
    reject_if (is_some_and expected (λ e. not (e == actual))) revision_conflict

-- `check_delete`
unfoldable pub check_delete : VpnProfile → Option ℕ → Bool → Bool → Result (Unit {0})
check_delete profile expected active stop_first =
    check_revision expected profile.revision >> reject_if (active && not stop_first) profile_busy

abbrev pub check_password : Option Str → Result (Unit {0})
check_password none = ok tt
check_password (some secret) = password secret

-- `request.password.filter(|password| !password.is_empty())`
abbrev pub given_password : Option Str → Option Str
given_password none = none
given_password (some secret) = if secret == [] then none else some secret

abbrev pub reference_of : Option VpnProfile → Option Str
reference_of none = none
reference_of (some p) = p.credential_ref

-- `save` up to its check of the capacity: the profile that is to be stored.
unfoldable pub revised : SaveRequest → Catalog → Result VpnProfile
unfolding check_revision
revised request catalog =
    let current = lookup request.profile.id catalog in
    validate_profile request.profile
    >> (certificate_pin request.profile.trusted_cert >>= λ cert.
        check_password request.password
        >> check_revision request.expected_revision (revision_of current)
        >> (next_revision (revision_of current) >>= λ revision.
            reject_if (not (is_some current) && leb max_profiles (length catalog)) invalid_input
            >> ok (record request.profile {
              trusted_cert = cert;
              revision = revision;
              credential_ref = reference_of current;
            })))

-- `existing && repository.has_stored_secret(&id)?`, asked where a password is to be remembered and
-- none is given.
unfoldable pub stored_secret {ℓ} :
    {W : Type ℓ} → ProfileRepository W → SaveRequest → W → Result Bool × W
stored_secret repo request w =
    let id = request.profile.id in
    if not request.remember_password
    then (ok false, w)
    else if is_some (given_password request.password)
    then (ok true, w)
    else if is_some (lookup id (repo.profiles w))
    then repo.has_stored_secret id w
    else (ok false, w)

abbrev pub is_required : MissingPasswordPolicy → Bool
is_required allow = false
is_required require_when_remembering = true

-- A password has to be stored, and none is.
unfoldable pub lacks_password : SaveRequest → MissingPasswordPolicy → Bool → Bool
lacks_password request missing stored =
    (request.profile.auto_connect && not stored)
    || (request.remember_password && not stored && is_required missing)

-- The mutation that `save` commits.
unfoldable pub save_mutation : SaveRequest → VpnProfile → Bool → Catalog → Mutation
save_mutation request profile existing catalog =
    let id = request.profile.id in
    let secret = given_password request.password in
    if request.remember_password
    then record {
      profiles = insert id profile catalog;
      stored = elim secret [
        | some p ↦ (id, replace p) ∷ []
        | none ↦ if existing then [] else (id, discard) ∷ []
      ];
      session = (id, discard) ∷ [];
      clear_sessions = false;
    }
    else record {
      profiles = insert id (record profile { credential_ref = none }) catalog;
      stored = (id, discard) ∷ [];
      session = elim secret [ some p ↦ (id, replace p) ∷ [] | none ↦ [] ];
      clear_sessions = false;
    }

module _ {ℓ} {W : Type ℓ} (repo : ProfileRepository W) where
  -- The commit of a save and the view that answers it.
  unfoldable pub commit_save : Str → Mutation → W → Result ProfileView × W
  commit_save id mutation w =
      let committed = repo.commit mutation w in
      elim committed.0 [
        | err e ↦ (err e, committed.1)
        | ok _ ↦ (repo.view committed.1 id, committed.1)
      ]

  -- `save`
  unfoldable pub save : SaveRequest → MissingPasswordPolicy → W → Result ProfileView × W
  unfolding stored_secret commit_save
  save request missing w =
      let existing = is_some (lookup request.profile.id (repo.profiles w)) in
      elim (revised request (repo.profiles w)) [
        | err e ↦ (err e, w)
        | ok profile ↦
            let asked = stored_secret repo request w in
            elim asked.0 [
              | err e ↦ (err e, asked.1)
              | ok stored ↦
                  if lacks_password request missing stored
                  then (err invalid_input, asked.1)
                  else commit_save request.profile.id
                      (save_mutation request profile existing (repo.profiles asked.1)) asked.1
            ]
      ]

  -- What `delete` commits.
  unfoldable pub delete_mutation : Str → Catalog → Mutation
  delete_mutation id catalog = record {
    profiles = remove id catalog;
    stored = (id, discard) ∷ [];
    session = (id, discard) ∷ [];
    clear_sessions = false;
  }

  unfoldable pub commit_delete : Str → W → Result Bool × W
  unfolding delete_mutation
  commit_delete id w =
      let committed = repo.commit (delete_mutation id (repo.profiles w)) w in
      elim committed.0 [ err e ↦ (err e, committed.1) | ok _ ↦ (ok true, committed.1) ]

  -- `delete`
  unfoldable pub delete : Str → Option ℕ → W → Result Bool × W
  unfolding commit_delete
  delete id expected w = elim (lookup id (repo.profiles w)) [
    | none ↦ (ok false, w)
    | some current ↦ elim (check_revision expected current.revision) [
      | err e ↦ (err e, w)
      | ok _ ↦ commit_delete id w
    ]
  ]

  abbrev discard_all : List Str → Dict SecretChange → Dict SecretChange
  discard_all [] stored = stored
  discard_all (id ∷ ids) stored = discard_all ids (insert id discard stored)

  abbrev replace_all : Dict Str → Dict SecretChange → Dict SecretChange
  replace_all [] stored = stored
  replace_all ((id, secret) ∷ rest) stored = replace_all rest (insert id (replace secret) stored)

  -- What `restore` commits.
  unfoldable pub restore_mutation : Catalog → Catalog → Dict Str → Mutation
  restore_mutation current profiles secrets = record {
    profiles = profiles;
    stored = replace_all secrets (discard_all (keys profiles) (discard_all (keys current) []));
    session = [];
    clear_sessions = true;
  }

  -- `restore`
  unfoldable pub restore : ℕ → List VpnProfile → Dict Str → W → Result (Unit {0}) × W
  restore schema profiles secrets w =
      elim (validate_portable_archive schema profiles secrets
        >> prepare_restored_catalog profiles (repo.profiles w)) [
          | err e ↦ (err e, w)
          | ok restored ↦ repo.commit (restore_mutation (repo.profiles w) restored secrets) w
        ]
