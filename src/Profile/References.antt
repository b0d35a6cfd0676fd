-- ===== src/Profile/References.antt =====
-- `commit_referenced` of crates/manager-core/src/profile_service.rs.
pub mod Staged
pub mod Atomic
use openfortivpn.Base.{
  refl, arith, ◌≡◌, some, none, true, false, [], ◌∷◌, inl, inr, Bool-cases, Option-cases,
  if◌then◌else◌, Bool, List, Option, ℕ, not, ◌==◌, ◌||◌, ◌&&◌, ltb, leb, max, is_some, length, ◌<◌,
  ◌≤◌, suc, any, all, ◌+◌,
}
use openfortivpn.Base.Error.{ok, err, Result, Result-cases, ◌>>◌, reject_if, invalid_input}
use openfortivpn.Base.Text.{Str, str_equality, str_beq_iff}
use openfortivpn.Profile.Model.{Catalog, SecretChange, VpnProfile, replace, discard, max_profiles}
use openfortivpn.Profile.Journal.{Intent}
use openfortivpn.Base.Dict.{Dict, modify, lookup, remove, insert}
use openfortivpn.Profile.Archive.{contains, StrSet}
use openfortivpn.Profile.Validation.{validate_profile, password}

pub record ReferencedCatalog : Type 0 where
  pub profiles : Catalog
  pub stored : StrSet
  pub unknown : StrSet

-- `ReferenceBackend`, whose calls act on a state `W`; `H` is its type of intent handles.
pub record ReferenceBackend {ℓ} (W H : Type ℓ) : Type ℓ where
  pub allocate_reference : W → Str × W
  pub begin : Intent → W → Result H × W
  pub write_secret : Str → Str → W → Result (Unit {0}) × W
  pub commit_metadata : ReferencedCatalog → W → Result (Unit {0}) × W
  pub collect : H → Intent → W → Result (Unit {0}) × W

pub record ReferenceCommit : Type 0 where
  pub catalog : ReferencedCatalog
  pub deferred_gc : ℕ

abbrev pub has_profile : Str → Catalog → Bool
has_profile id profiles = is_some (lookup id profiles)

unfoldable pub check_entries : Dict VpnProfile → Result (Unit {0})
check_entries [] = ok tt
check_entries ((id, p) ∷ rest) =
    validate_profile p >> reject_if (not (id == p.id)) invalid_input >> check_entries rest

-- One change of `check_changes`.
unfoldable pub check_change : Catalog → Catalog → Str → SecretChange → Result (Unit {0})
check_change current profiles id (replace secret) =
    password secret >> reject_if (not (has_profile id profiles)) invalid_input
check_change current profiles id discard =
    reject_if (not (has_profile id profiles) && not (has_profile id current)) invalid_input

unfoldable pub check_changes : Catalog → Catalog → Dict SecretChange → Result (Unit {0})
unfolding check_change
check_changes current profiles [] = ok tt
check_changes current profiles ((id, change) ∷ rest) =
    check_change current profiles id change >> check_changes current profiles rest

-- `retain` of the ids that stand in the catalog.
unfoldable pub retain_known : Catalog → StrSet → StrSet
retain_known profiles [] = []
retain_known profiles ((id, u) ∷ rest) =
    let left = retain_known profiles rest in
    if has_profile id profiles then (id, u) ∷ left else left

-- The reference that a changed secret had.
unfoldable pub old_reference : ReferencedCatalog → Str → Option Str
old_reference current id =
    if contains id current.stored || contains id current.unknown
    then elim (lookup id current.profiles) [
      | none ↦ none
      | some p ↦ elim p.credential_ref [ none ↦ some id | some r ↦ some r ]
    ]
    else none

-- The catalog after a change with its new reference, but for its stored ids.
unfoldable pub refer : Str → Option Str → ReferencedCatalog → ReferencedCatalog
refer id new_ref next = record next {
  profiles = modify id (λ (p : VpnProfile). record p { credential_ref = new_ref }) next.profiles;
  unknown = remove id next.unknown;
}

module _ {ℓ} {W H : Type ℓ} (backend : ReferenceBackend W H) where
  abbrev new_reference : SecretChange → W → Option Str × W
  new_reference discard w = (none, w)
  new_reference (replace _) w = let (r, w') = backend.allocate_reference w in (some r, w')

  -- The secret of a change, written under its new reference.
  unfoldable pub write_change :
      Str → SecretChange → Option Str → ReferencedCatalog → W → Result ReferencedCatalog × W
  write_change id (replace secret) (some reference) next w =
      let written = backend.write_secret reference secret w in
      elim written.0 [
        | err e ↦ (err e, written.1)
        | ok _ ↦ (ok (record next { stored = insert id tt next.stored }), written.1)
      ]
  write_change id _ _ next w = (ok (record next { stored = remove id next.stored }), w)

  -- One change: its intent, and what the catalog then holds.
  unfoldable pub stage_one :
      ReferencedCatalog
      → Str
      → SecretChange
      → ReferencedCatalog
      → W
      → Result (ReferencedCatalog × H × Intent) × W
  unfolding old_reference refer write_change
  stage_one current id change next w =
      let (new_ref, w1) = new_reference change w in
      let intent : Intent = record {
        profile_id = id;
        old_ref = old_reference current id;
        new_ref = new_ref;
        delete_profile = not (has_profile id next.profiles);
      } in
      let begun = backend.begin intent w1 in
      elim begun.0 [
        | err e ↦ (err e, begun.1)
        | ok handle ↦
            let written = write_change id change new_ref (refer id new_ref next) begun.1 in
            elim written.0 [
              | err e ↦ (err e, written.1)
              | ok done ↦ (ok (done, handle, intent), written.1)
            ]
      ]

  -- The loop over the changes, with the intents in their order.
  unfoldable pub stage :
      ReferencedCatalog
      → Dict SecretChange
      → ReferencedCatalog
      → W
      → Result (ReferencedCatalog × List (H × Intent)) × W
  unfolding stage_one
  stage current [] next w = (ok (next, []), w)
  stage current ((id, change) ∷ rest) next w =
      let one = stage_one current id change next w in
      elim one.0 [
        | err e ↦ (err e, one.1)
        | ok (done, handle, intent) ↦
            let others = stage current rest done one.1 in
            elim others.0 [
              | err e ↦ (err e, others.1)
              | ok (all_done, intents) ↦ (ok (all_done, (handle, intent) ∷ intents), others.1)
            ]
      ]

  -- How many intents are not collected.
  unfoldable pub collect_all : List (H × Intent) → W → ℕ × W
  collect_all [] w = (0, w)
  collect_all ((handle, intent) ∷ rest) w =
      let collected = backend.collect handle intent w in
      let (count, w') = collect_all rest collected.1 in
      elim collected.0 [ ok _ ↦ (count, w') | err e ↦ (count + 1, w') ]

  -- What follows the loop.
  unfoldable pub finish_commit :
      ReferencedCatalog → List (H × Intent) → W → Result ReferenceCommit × W
  unfolding collect_all
  finish_commit next intents w =
      let kept = record next {
        stored = retain_known next.profiles next.stored;
        unknown = retain_known next.profiles next.unknown;
      } in
      let committed = backend.commit_metadata kept w in
      elim committed.0 [
        | err e ↦ (err e, committed.1)
        | ok _ ↦
            let (deferred, w') = collect_all intents committed.1 in
            (ok (record { catalog = kept; deferred_gc = deferred }), w')
      ]

  abbrev check_commit : ReferencedCatalog → Catalog → Dict SecretChange → Result (Unit {0})
  check_commit current profiles changes =
      reject_if (ltb max_profiles (length profiles)) invalid_input
      >> check_entries profiles
      >> check_changes current.profiles profiles changes

  -- `commit_referenced`
  unfoldable pub commit_referenced :
      ReferencedCatalog → Catalog → Dict SecretChange → W → Result ReferenceCommit × W
  unfolding check_entries check_changes stage finish_commit
  commit_referenced current profiles changes w = elim (check_commit current profiles changes) [
    | err e ↦ (err e, w)
    | ok _ ↦
        let next : ReferencedCatalog = record {
          profiles = profiles;
          stored = current.stored;
          unknown = current.unknown;
        } in
        let staged = stage current changes next w in
        elim staged.0 [
          | err e ↦ (err e, staged.1)
          | ok (done, intents) ↦ finish_commit done intents staged.1
        ]
  ]
