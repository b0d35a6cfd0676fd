-- ===== src/Profile/Revisions.antt =====
-- Optimistic revisions of the profile service.
use mathlib.Core.Option
use openfortivpn.Profile.Validation.{certificate_pin}
use openfortivpn.Base.{
  ◌∙◌, sym, Option-cases, refl, arith, ◌≡◌, some, none, false, inl, inr, Bool-cases, Bool, Option,
  ℕ, ◌==◌, is_some, ◌+◌, checked_add-eq-some, ap, is_none_or, true, if◌then◌else◌, nat_equality,
}
use openfortivpn.Base.Error.{ok, Result-cases, is_ok}
use openfortivpn.Base.Text.{Str, str_equality, str_beq_iff}
use openfortivpn.Profile.Service.{
  ProfileRepository, revised, check_revision, stored_secret, save, save_mutation, commit_save,
}
use openfortivpn.Profile.Model.{
  Mutation, SaveRequest, MissingPasswordPolicy, ProfileView, Catalog, VpnProfile,
}
use openfortivpn.Profile.Archive.{revision_of}
use openfortivpn.Base.Dict.{lookup, lookup-insert, insert}

-- A profile without its credential reference, which is the repository's own.
abbrev pub without_reference : VpnProfile → VpnProfile
without_reference p = record p { credential_ref = none }

-- The profile of the catalog, without its credential reference.
abbrev pub shown : Str → Catalog → Option VpnProfile
shown id catalog = Option.map without_reference (lookup id catalog)

-- What the callers of a repository rely on: after a commit that succeeds the repository shows the
-- profiles that were committed, up to their credential references, which it clears or allocates
-- itself; and asking for a secret changes no profile.
pub record IsLawful {ℓ} {W : Type ℓ} (repo : ProfileRepository W) : Type ℓ where
  pub commit_shows :
      (m : Mutation) (w : W) (id : Str)
      → (repo.commit m w).0 ≡ ok tt
      → shown id (repo.profiles (repo.commit m w).1) ≡ shown id m.profiles
  pub asking_keeps :
      (id : Str) (w : W) → repo.profiles (repo.has_stored_secret id w).1 ≡ repo.profiles w

-- The profile that a save stores.
abbrev pub stored_profile : SaveRequest → Str → Catalog → VpnProfile
stored_profile request cert catalog = record request.profile {
  trusted_cert = cert;
  revision = revision_of (lookup request.profile.id catalog) + 1;
  credential_ref = none;
}

-- What the checks of a save answer.
revised_next :
    (request : SaveRequest) (catalog : Catalog) (p : VpnProfile)
    → revised request catalog ≡ ok p
    → (cert : Str) × (certificate_pin request.profile.trusted_cert ≡ ok cert)
      × (without_reference p ≡ stored_profile request cert catalog)
      × (is_none_or request.expected_revision
            (λ e. e == revision_of (lookup request.profile.id catalog))
          ≡ true)
unfolding revised check_revision
revised_next request catalog p h =
    let next = checked_add-eq-some (revision_of (lookup request.profile.id catalog)) 1 p.revision in
    elim (Result-cases (certificate_pin request.profile.trusted_cert)) [
      | inr (e, bad) ↦ absurd (ground (arith, h, bad))
      | inl (cert, fine) ↦ (cert, fine, ground (arith, h, fine, next), ground (arith, h, fine))
    ]

shown-insert :
    (id k : Str) (p : VpnProfile) (catalog : Catalog)
    → shown k (insert id p catalog)
      ≡ (if id == k then some (without_reference p) else shown k catalog)
shown-insert id k p catalog =
    rw (lookup-insert id k p catalog)
      (elim (Bool-cases (id == k)) [ inl here ↦ rw here refl | inr there ↦ rw there refl ])

revision_of-shown :
    (id : Str) (catalog : Catalog)
    → revision_of (shown id catalog) ≡ revision_of (lookup id catalog)
unfolding revision_of
revision_of-shown id catalog = elim (Option-cases (lookup id catalog)) [
  | inl e ↦ rw e refl
  | inr (p, e) ↦ rw e refl
]

save_mutation_profiles :
    (request : SaveRequest) (p : VpnProfile) (existing : Bool) (catalog : Catalog)
    → (c : Option Str) × ((save_mutation request p existing catalog).profiles
        ≡ insert request.profile.id (record p { credential_ref = c }) catalog)
unfolding save_mutation
save_mutation_profiles request p existing catalog = elim (Bool-cases request.remember_password) [
  | inl remembered ↦ (p.credential_ref, ground (arith, remembered))
  | inr forgotten ↦ (none, ground (arith, forgotten))
]

module _ {ℓ} {W : Type ℓ} (repo : ProfileRepository W) (lawful : IsLawful repo) where
  stored_secret_keeps :
      (request : SaveRequest) (w : W)
      → repo.profiles (stored_secret repo request w).1 ≡ repo.profiles w
  unfolding stored_secret
  stored_secret_keeps request w = ground (arith, lawful.asking_keeps request.profile.id w)

  commit_save_shows :
      (id : Str) (m : Mutation) (w w' : W) (view : ProfileView) (k : Str)
      → commit_save repo id m w ≡ (ok view, w')
      → shown k (repo.profiles w') ≡ shown k m.profiles
  unfolding commit_save
  commit_save_shows id m w w' view k h = ground (arith, h, lawful.commit_shows m w k)

  -- A save that succeeds shows what `revised` answers.
  save_shows :
      (request : SaveRequest) (missing : MissingPasswordPolicy) (w w' : W) (view : ProfileView)
      (k : Str)
      → save repo request missing w ≡ (ok view, w')
      → (p : VpnProfile) × (revised request (repo.profiles w) ≡ ok p)
        × (shown k (repo.profiles w') ≡ (
            if request.profile.id == k
            then some (without_reference p)
            else shown k (repo.profiles w)))
  unfolding save
  save_shows request missing w w' view k h =
      elim (Result-cases (revised request (repo.profiles w))) [
        | inr (e, bad) ↦ absurd (ground (arith, bad))
        | inl (p, fine) ↦
            let existing = is_some (lookup request.profile.id (repo.profiles w)) in
            let asked = stored_secret repo request w in
            let m = save_mutation request p existing (repo.profiles asked.1) in
            let (c, inserted) = save_mutation_profiles request p existing (repo.profiles asked.1) in
            let lands : shown k (repo.profiles w') ≡ shown k m.profiles =
              ground (arith, h, fine, commit_save_shows request.profile.id m asked.1 w' view k) in
            let q = record p { credential_ref = c } in
            (
              p,
              fine,
              lands
                  ∙ ap (shown k) inserted
                  ∙ shown-insert request.profile.id k q (repo.profiles asked.1)
                  ∙ ap
                      (λ d.
                        if request.profile.id == k then some (without_reference p) else shown k d)
                      (stored_secret_keeps request w),
            )
      ]

  -- A save that succeeds finds the revision that the client expected, stores exactly the profile of
  -- the request, with the normal form of its certificate and the next revision, and leaves every
  -- other profile as it was: all up to the credential references, which are the repository's own.
  pub save_outcome :
      (request : SaveRequest) (missing : MissingPasswordPolicy) (w w' : W) (view : ProfileView)
      (k : Str)
      → save repo request missing w ≡ (ok view, w')
      → (cert : Str) × (certificate_pin request.profile.trusted_cert ≡ ok cert)
        × (is_none_or request.expected_revision
              (λ e. e == revision_of (lookup request.profile.id (repo.profiles w)))
            ≡ true)
        × (shown k (repo.profiles w') ≡ (
            if request.profile.id == k
            then some (stored_profile request cert (repo.profiles w))
            else shown k (repo.profiles w)))
  save_outcome request missing w w' view k h =
      let (p, fine, lands) = save_shows request missing w w' view k h in
      let (cert, pinned, exact, expected) = revised_next request (repo.profiles w) p fine in
      (
        cert,
        pinned,
        expected,
        lands
            ∙ ap (λ q. if request.profile.id == k then some q else shown k (repo.profiles w)) exact,
      )

  -- Of two saves of one profile that expect the same revision, the second never succeeds once the
  -- first has: no update is lost.
  pub no_lost_update :
      (first second : SaveRequest) (m n : MissingPasswordPolicy) (w w' : W) (view : ProfileView)
      (e : ℕ)
      → save repo first m w ≡ (ok view, w')
      → first.profile.id ≡ second.profile.id
      → first.expected_revision ≡ some e
      → second.expected_revision ≡ some e
      → is_ok (save repo second n w').0 ≡ false
  unfolding revision_of
  no_lost_update first second m n w w' view e done same given again =
      elim (Result-cases (save repo second n w').0) [
        | inr (x, bad) ↦ rw bad refl
        | inl (view', fine) ↦
            let id = second.profile.id in
            let (cert, pinned, expected, lands) = save_outcome first m w w' view id done in
            let (p', fine', lands') =
              save_shows second n w' (save repo second n w').1 view' id
                (ap (λ r. (r, (save repo second n w').1)) fine) in
            let (cert', pinned', exact', expected') =
              revised_next second (repo.profiles w') p' fine' in
            let next : revision_of (lookup id (repo.profiles w'))
                ≡ revision_of (lookup first.profile.id (repo.profiles w)) + 1 =
              sym (revision_of-shown id (repo.profiles w'))
              ∙ ap revision_of lands
              ∙ ground (arith, same, str_beq_iff first.profile.id id) in
            absurd (ground (arith, next, expected, expected', same, given, again))
      ]
