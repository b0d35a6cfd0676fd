-- ===== src/Profile/References/Staged.antt =====
-- The profiles of a catalog while its changes are staged.
use openfortivpn.Profile.Revisions.{shown}
use openfortivpn.Base.{
  ◌∙◌, sym, ap, Option-cases, ◌==◌, Bool-cases, refl, arith, ◌≡◌, some, none, [], ◌∷◌, inl, inr,
  List, Option, not,
}
use openfortivpn.Base.Error.{ok, Result-cases}
use openfortivpn.Base.Text.{Str, str_equality}
use openfortivpn.Profile.References.{
  ReferenceBackend, ReferencedCatalog, stage_one, stage, new_reference, write_change, old_reference,
  has_profile, refer,
}
use openfortivpn.Profile.Journal.{Intent}
use openfortivpn.Profile.Model.{SecretChange, VpnProfile, replace, discard}
use openfortivpn.Base.Dict.{Dict, lookup, lookup-modify, insert}

shown-refer :
    (id at : Str) (r : Option Str) (next : ReferencedCatalog)
    → shown at (refer id r next).profiles ≡ shown at next.profiles
unfolding refer
shown-refer id at r next =
    rw (lookup-modify id at (λ (p : VpnProfile). record p { credential_ref = r }) next.profiles)
      (elim (Bool-cases (id == at)) [
        | inr there ↦ rw there refl
        | inl here ↦ rw here (elim (Option-cases (lookup at next.profiles)) [
          | inl e ↦ rw e refl
          | inr (p, e) ↦ rw e refl
        ])
      ])

module _ {ℓ} {W H : Type ℓ} (backend : ReferenceBackend W H) where
  write_change-profiles :
      (id : Str) (change : SecretChange) (r : Option Str) (next done : ReferencedCatalog) (w : W)
      → (write_change backend id change r next w).0 ≡ ok done
      → done.profiles ≡ next.profiles
  unfolding write_change
  write_change-profiles id discard r next done w h = ground (arith, h)
  write_change-profiles id (replace s) none next done w h = ground (arith, h)
  write_change-profiles id (replace s) (some r) next done w h =
      elim (Result-cases (backend.write_secret r s w).0) [
        | inr (x, e) ↦ absurd (ground (arith, h, e))
        | inl (u, e) ↦
            let same : record next { stored = insert id tt next.stored } ≡ done =
              ground (arith, h, e) in
            ap (λ (c : ReferencedCatalog). c.profiles) (sym same)
      ]

  stage_one-shown :
      (current : ReferencedCatalog) (id at : Str) (change : SecretChange)
      (next done : ReferencedCatalog) (h : H) (i : Intent) (w : W)
      → (stage_one backend current id change next w).0 ≡ ok (done, h, i)
      → shown at done.profiles ≡ shown at next.profiles
  unfolding stage_one
  stage_one-shown current id at change next done h i w e =
      let new_ref = (new_reference backend change w).0 in
      let w1 = (new_reference backend change w).1 in
      let intent : Intent = record {
        profile_id = id;
        old_ref = old_reference current id;
        new_ref = new_ref;
        delete_profile = not (has_profile id next.profiles);
      } in
      let begun = backend.begin intent w1 in
      let written = write_change backend id change new_ref (refer id new_ref next) begun.1 in
      elim (Result-cases begun.0) [
        | inr (x, f) ↦ absurd (ground (arith, e, f))
        | inl (handle, f) ↦ elim (Result-cases written.0) [
          | inr (x, g) ↦ absurd (ground (arith, e, f, g))
          | inl (d, g) ↦
              let same : d ≡ done = ground (arith, e, f, g) in
              ap (λ (c : ReferencedCatalog). shown at c.profiles) (sym same)
              ∙ ap (shown at)
                  (write_change-profiles id change new_ref (refer id new_ref next) d begun.1 g)
              ∙ shown-refer id at new_ref next
        ]
      ]

  pub stage-shown :
      (current : ReferencedCatalog) (changes : Dict SecretChange) (next done : ReferencedCatalog)
      (intents : List (H × Intent)) (at : Str) (w : W)
      → (stage backend current changes next w).0 ≡ ok (done, intents)
      → shown at done.profiles ≡ shown at next.profiles
  unfolding stage
  stage-shown current [] next done intents at w e = ground (arith, e)
  stage-shown current ((id, change) ∷ rest) next done intents at w e =
      let one = stage_one backend current id change next w in
      elim (Result-cases one.0) [
        | inr (x, f) ↦ absurd (ground (arith, e, f))
        | inl ((d, h, i), f) ↦ elim (Result-cases (stage backend current rest d one.1).0) [
          | inr (x, g) ↦ absurd (ground (arith, e, f, g))
          | inl ((all_done, is), g) ↦
              let same : all_done ≡ done = ground (arith, e, f, g) in
              ap (λ (c : ReferencedCatalog). shown at c.profiles) (sym same)
              ∙ stage-shown current rest d all_done is at one.1 g
              ∙ stage_one-shown current id at change next d h i w f
        ]
      ]
