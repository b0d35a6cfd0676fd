-- ===== src/Profile/Archive.antt =====
-- Archives and catalogs as a whole: crates/manager-core/src/repository.rs.
use openfortivpn.Base.{
  some, none, true, false, [], ◌∷◌, if◌then◌else◌, Bool, List, Option, ℕ, not, ◌==◌, ◌||◌, ◌&&◌,
  any, ltb, max, is_some, length, nat_equality, checked_add,
}
use openfortivpn.Base.Error.{ok, err, Result, recovery_required, reject_if, ◌>>◌, ◌>>=◌}
use openfortivpn.Base.Text.{Str, str_equality}
use openfortivpn.Base.Dict.{Dict, lookup, insert}
use openfortivpn.Profile.Model.{VpnProfile, Catalog, max_profiles}
use openfortivpn.Profile.Validation.{validate_profile, certificate_pin, password}

unfoldable pub has_id : Str → List Str → Bool
has_id id = any (λ seen. seen == id)

-- The first loop of `validate_portable_archive`, from the ids seen so far.
unfoldable pub archive_ids : List Str → List VpnProfile → Result (List Str)
unfolding has_id
archive_ids ids [] = ok ids
archive_ids ids (p ∷ ps) =
    validate_profile p
    >> reject_if (is_some p.credential_ref || has_id p.id ids) recovery_required
    >> archive_ids (p.id ∷ ids) ps

-- Its second loop, from the ids of the passwords seen so far.
unfoldable pub archive_secrets : List Str → List Str → Dict Str → Result (List Str)
unfolding has_id
archive_secrets ids seen [] = ok seen
archive_secrets ids seen ((id, secret) ∷ rest) =
    reject_if (secret == [] || not (has_id id ids) || has_id id seen) recovery_required
    >> password secret
    >> archive_secrets ids (id ∷ seen) rest

-- `validate_portable_archive`
unfoldable pub validate_portable_archive : ℕ → List VpnProfile → Dict Str → Result (Unit {0})
unfolding archive_ids archive_secrets
validate_portable_archive schema profiles secrets =
    reject_if (not (schema == 1) || ltb max_profiles (length profiles)) recovery_required
    >> (archive_ids [] profiles >>= λ ids. archive_secrets ids [] secrets >>= λ secret_ids.
        reject_if
          (any (λ (p : VpnProfile). p.auto_connect && not (has_id p.id secret_ids)) profiles)
          recovery_required)

-- `current.get(id).map_or(0, |p| p.revision)`
unfoldable pub revision_of : Option VpnProfile → ℕ
revision_of none = 0
revision_of (some p) = p.revision

abbrev pub next_revision : ℕ → Result ℕ
next_revision revision = elim (checked_add revision 1) [
  | none ↦ err recovery_required
  | some next ↦ ok next
]

-- What is restored of one profile.
unfoldable pub restored_profile : Catalog → VpnProfile → Result VpnProfile
restored_profile current p =
    validate_profile p
    >> (certificate_pin p.trusted_cert >>= λ cert.
        next_revision (max p.revision (revision_of (lookup p.id current))) >>= λ revision.
        ok (record p { trusted_cert = cert; revision = revision }))

-- The loop of `prepare_restored_catalog`.
unfoldable pub restore_all : Catalog → Catalog → List VpnProfile → Result Catalog
restore_all current restored [] = ok restored
restore_all current restored (p ∷ ps) = restored_profile current p >>= λ q.
    reject_if (is_some (lookup q.id restored)) recovery_required
    >> restore_all current (insert q.id q restored) ps

-- `prepare_restored_catalog`
unfoldable pub prepare_restored_catalog : List VpnProfile → Catalog → Result Catalog
unfolding restore_all
prepare_restored_catalog profiles current =
    reject_if (ltb max_profiles (length profiles)) recovery_required
    >> restore_all current [] profiles

-- `BTreeSet<String>` and `HashSet<String>`
abbrev pub StrSet : Type 0
StrSet = Dict (Unit {0})

abbrev pub contains : Str → StrSet → Bool
contains k s = is_some (lookup k s)

pub record CredentialGc : Type 0 where
  pub delete : StrSet
  pub deferred_for_backup : Bool

-- The loop of `credential_gc`.
unfoldable pub gc_loop : List Str → StrSet → StrSet → CredentialGc → CredentialGc
gc_loop [] active backup gc = gc
gc_loop (candidate ∷ rest) active backup gc = gc_loop rest active backup (
    if contains candidate active
    then gc
    else if contains candidate backup
    then record gc { deferred_for_backup = true }
    else record gc { delete = insert candidate tt gc.delete })

-- `credential_gc`
unfoldable pub credential_gc : List Str → StrSet → StrSet → CredentialGc
unfolding gc_loop
credential_gc candidates active backup =
    gc_loop candidates active backup (record { delete = []; deferred_for_backup = false })
