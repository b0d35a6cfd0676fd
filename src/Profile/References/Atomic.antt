-- ===== src/Profile/References/Atomic.antt =====
-- A referenced commit replaces the metadata as a whole, or leaves them as they were.
use openfortivpn.Profile.Revisions.{shown}
use mathlib.Core.Path.{subst}
use openfortivpn.Base.{
  ◌⊎◌, ◌∙◌, sym, refl, arith, ◌≡◌, some, none, [], ◌∷◌, inl, inr, List, Option, not,
}
use openfortivpn.Base.Error.{Result, ok, err, Result-cases, ErrorCode}
use openfortivpn.Base.Text.{Str, str_equality}
use openfortivpn.Profile.References.Staged.{stage-shown}
use openfortivpn.Profile.References.{
  ReferenceBackend, ReferencedCatalog, stage_one, stage, commit_referenced, new_reference,
  write_change, finish_commit, check_commit, old_reference, has_profile, refer, collect_all,
  ReferenceCommit, retain_known,
}
use openfortivpn.Profile.Journal.{Intent}
use openfortivpn.Profile.Model.{SecretChange, Catalog, replace, discard}
use openfortivpn.Base.Dict.{Dict}

-- What a backend is relied on for: only commits change the metadata, and a commit replaces them as a
-- whole: after one that succeeds they are those of its catalog, and after one that fails they are
-- those or the old ones, since a failure may come after the file has been renamed.
pub record ReplacesMetadata {ℓ} {W H : Type ℓ} {M : Type ℓ} (backend : ReferenceBackend W H)
    (metadata : W → M) (metadata_of : ReferencedCatalog → M) : Type ℓ where
  pub allocating : (w : W) → metadata (backend.allocate_reference w).1 ≡ metadata w
  pub beginning : (i : Intent) (w : W) → metadata (backend.begin i w).1 ≡ metadata w
  pub writing : (r s : Str) (w : W) → metadata (backend.write_secret r s w).1 ≡ metadata w
  pub collecting : (h : H) (i : Intent) (w : W) → metadata (backend.collect h i w).1 ≡ metadata w
  pub succeeding :
      (c : ReferencedCatalog) (w : W)
      → (backend.commit_metadata c w).0 ≡ ok tt
      → metadata (backend.commit_metadata c w).1 ≡ metadata_of c
  pub failing :
      (c : ReferencedCatalog) (w : W) (e : ErrorCode)
      → (backend.commit_metadata c w).0 ≡ err e
      → (metadata (backend.commit_metadata c w).1 ≡ metadata w)
        ⊎ (metadata (backend.commit_metadata c w).1 ≡ metadata_of c)

module _ {ℓ} {W H M : Type ℓ} (backend : ReferenceBackend W H) (metadata : W → M)
    (metadata_of : ReferencedCatalog → M)
    (lawful : ReplacesMetadata backend metadata metadata_of) where
  new_reference_keeps :
      (change : SecretChange) (w : W) → metadata (new_reference backend change w).1 ≡ metadata w
  new_reference_keeps discard w = refl
  new_reference_keeps (replace s) w = lawful.allocating w

  write_change_keeps :
      (id : Str) (change : SecretChange) (r : Option Str) (next : ReferencedCatalog) (w : W)
      → metadata (write_change backend id change r next w).1 ≡ metadata w
  unfolding write_change
  write_change_keeps id discard r next w = refl
  write_change_keeps id (replace s) none next w = refl
  write_change_keeps id (replace s) (some r) next w = ground (arith, lawful.writing r s w)

  stage_one_keeps :
      (current : ReferencedCatalog) (id : Str) (change : SecretChange) (next : ReferencedCatalog)
      (w : W)
      → metadata (stage_one backend current id change next w).1 ≡ metadata w
  unfolding stage_one
  stage_one_keeps current id change next w =
      let new_ref = (new_reference backend change w).0 in
      let w1 = (new_reference backend change w).1 in
      let intent : Intent = record {
        profile_id = id;
        old_ref = old_reference current id;
        new_ref = new_ref;
        delete_profile = not (has_profile id next.profiles);
      } in
      ground (
        arith,
        new_reference_keeps change w,
        lawful.beginning intent w1,
        write_change_keeps id change new_ref (refer id new_ref next) (backend.begin intent w1).1,
      )

  stage_keeps :
      (current : ReferencedCatalog) (changes : Dict SecretChange) (next : ReferencedCatalog) (w : W)
      → metadata (stage backend current changes next w).1 ≡ metadata w
  unfolding stage
  stage_keeps current [] next w = refl
  stage_keeps current ((id, change) ∷ rest) next w =
      let one = stage_one backend current id change next w in
      elim (Result-cases one.0) [
        | inr (e, failed) ↦ ground (arith, failed, stage_one_keeps current id change next w)
        | inl ((done, handle, intent), fine) ↦ ground (
          arith,
          fine,
          stage_one_keeps current id change next w,
          stage_keeps current rest done one.1,
        )
      ]

  collect_all_keeps :
      (intents : List (H × Intent)) (w : W)
      → metadata (collect_all backend intents w).1 ≡ metadata w
  unfolding collect_all
  collect_all_keeps [] w = refl
  collect_all_keeps ((h, i) ∷ rest) w =
      ground (arith, lawful.collecting h i w, collect_all_keeps rest (backend.collect h i w).1)

  -- The metadata, and what the catalog that they show holds for one profile.
  abbrev pub Shows : Str → Catalog → ReferencedCatalog → W → Type ℓ
  Shows at profiles c w = (metadata w ≡ metadata_of c) × (shown at c.profiles ≡ shown at profiles)

  -- After an error the metadata are the old ones, or the new ones as a whole; after a success they
  -- are those of the catalog that is returned.
  abbrev pub Replaced : Str → Catalog → W → Result ReferenceCommit × W → Type ℓ
  Replaced at profiles w (ok r, w') = Shows at profiles r.catalog w'
  Replaced at profiles w (err e, w') =
      (metadata w' ≡ metadata w) ⊎ ((c : ReferencedCatalog) × Shows at profiles c w')

  finish_commit-Replaced :
      (at : Str) (profiles : Catalog) (next : ReferencedCatalog) (intents : List (H × Intent))
      (w v : W)
      → metadata v ≡ metadata w
      → shown at next.profiles ≡ shown at profiles
      → Replaced at profiles w (finish_commit backend next intents v)
  unfolding finish_commit
  finish_commit-Replaced at profiles next intents w v kept same =
      let c : ReferencedCatalog = record next {
        stored = retain_known next.profiles next.stored;
        unknown = retain_known next.profiles next.unknown;
      } in
      let committed = (backend.commit_metadata c v).1 in
      let (deferred, u) = collect_all backend intents committed in
      elim (Result-cases (backend.commit_metadata c v).0) [
        | inl (done, e) ↦
            let returns : finish_commit backend next intents v
                ≡ (ok (record { catalog = c; deferred_gc = deferred }), u) =
              ground (arith, e) in
            subst (Replaced at profiles w) (sym returns)
              (collect_all_keeps intents committed ∙ lawful.succeeding c v e, same)
        | inr (x, e) ↦
            let fails : finish_commit backend next intents v ≡ (err x, committed) =
              ground (arith, e) in
            subst (Replaced at profiles w) (sym fails) (elim (lawful.failing c v x e) [
              | inl old ↦ inl (old ∙ kept)
              | inr new ↦ inr (c, (new, same))
            ])
      ]

  -- If a commit succeeds, the metadata are those of the catalog that it returns; if it fails, they
  -- are the old ones or those of a new catalog as a whole, wherever it fails: in a check, in staging a
  -- reference, an intent or a secret, or in the commit itself. Either new catalog has exactly the
  -- profiles that were to be committed, up to their credential references.
  pub commit_referenced_atomic :
      (current : ReferencedCatalog) (profiles : Catalog) (changes : Dict SecretChange) (w : W)
      (at : Str)
      → Replaced at profiles w (commit_referenced backend current profiles changes w)
  unfolding commit_referenced
  commit_referenced_atomic current profiles changes w at =
      let next : ReferencedCatalog = record {
        profiles = profiles;
        stored = current.stored;
        unknown = current.unknown;
      } in
      let staged = stage backend current changes next w in
      elim (Result-cases (check_commit backend current profiles changes)) [
        | inr (x, refused) ↦
            let fails : commit_referenced backend current profiles changes w ≡ (err x, w) =
              ground (arith, refused) in
            subst (Replaced at profiles w) (sym fails) (inl refl)
        | inl (u, passed) ↦ elim (Result-cases staged.0) [
          | inr (x, failed) ↦
              let fails : commit_referenced backend current profiles changes w ≡ (err x, staged.1) =
                ground (arith, passed, failed) in
              subst (Replaced at profiles w) (sym fails) (inl (stage_keeps current changes next w))
          | inl ((done, intents), fine) ↦
              let goes_on : commit_referenced backend current profiles changes w
                  ≡ finish_commit backend done intents staged.1 =
                ground (arith, passed, fine) in
              subst (Replaced at profiles w) (sym goes_on) (
                finish_commit-Replaced at profiles done intents w staged.1
                  (stage_keeps current changes next w)
                  (stage-shown backend current changes next done intents at w fine))
        ]
      ]
