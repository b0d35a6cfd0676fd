-- ===== src/Tests/Profile.antt =====
-- The profile service on a repository in memory, which clears the credential references.
use openfortivpn.Base.{
  Option-cases, inl, inr, refl, arith, ◌≡◌, some, none, true, false, [], ◌∷◌, if◌then◌else◌, ℕ, not,
  ◌==◌, ◌&&◌, any, is_none_or, nat_equality, checked_add, u64_max, List,
}
use openfortivpn.Base.Error.{ok, err, is_ok, recovery_required, profile_not_found}
use openfortivpn.Base.Text.{Str, str_equality, lit, is_blank, str_beq, len, bytes, utf8, to_lower}
use openfortivpn.Profile.Service.{
  ProfileRepository, save, revised, check_revision, save_mutation, lacks_password,
}
use openfortivpn.Profile.Revisions.{
  IsLawful, no_lost_update, save_outcome, shown, without_reference, stored_profile,
}
use openfortivpn.Profile.Model.{VpnProfile, SaveRequest, Catalog, allow, replace}
use openfortivpn.Profile.Archive.{contains, revision_of, credential_gc, has_id}
use openfortivpn.Profile.References.{ReferenceBackend, ReferencedCatalog, commit_referenced}
use openfortivpn.Profile.References.Atomic.{ReplacesMetadata, Replaced, commit_referenced_atomic}
use openfortivpn.Base.Dict.{lookup, insert, map_values, lookup-map_values}
use openfortivpn.Profile.Gc.{credential_gc_exact}
use openfortivpn.Profile.Validation.{
  validate_profile, has_bad_shape, line, engine_field, certificate_pin, password,
}
use openfortivpn.Profile.Codec.{Json, encode, decode}
use openfortivpn.Profile.Codec.RoundTrip.{IsFaithful, decode-encode}

abbrev memory : ProfileRepository Catalog
memory = record {
  profiles = λ w. w;
  has_stored_secret = λ id w. (ok true, w);
  view = λ w id. elim (lookup id w) [
    | none ↦ err profile_not_found
    | some p ↦ ok (record { profile = p; has_secret = true; password_stored = true })
  ];
  commit = λ m w. (ok tt, map_values without_reference m.profiles);
}

memory-IsLawful : IsLawful memory
memory-IsLawful = record {
  commit_shows = λ m w id e.
      rw (lookup-map_values without_reference id m.profiles)
        (elim (Option-cases (lookup id m.profiles)) [ inl f ↦ rw f refl | inr (p, f) ↦ rw f refl ]);
  asking_keeps = λ id w. refl;
}

abbrev home : VpnProfile
home = record {
  id = lit "h";
  revision = 0;
  name = lit "Home";
  host = lit "vpn";
  port = 443;
  username = [];
  realm = [];
  trusted_cert = [];
  credential_ref = none;
  set_routes = true;
  set_dns = true;
  pppd_use_peerdns = false;
  half_internet_routes = false;
  use_sudo = true;
  auto_connect = false;
  auto_reconnect = true;
}

abbrev first_save : SaveRequest
first_save = record {
  profile = home;
  password = none;
  remember_password = false;
  expected_revision = some 0;
}

abbrev saved : VpnProfile
saved = record home { revision = 1 }

first_saved : save memory first_save allow [] ≡ (
  ok (record { profile = saved; has_secret = true; password_stored = true }),
  (lit "h", saved) ∷ [],
)
unfolding save revised check_revision save_mutation lacks_password validate_profile has_bad_shape
    is_blank lit str_beq len bytes utf8 line engine_field certificate_pin to_lower password lookup
    insert checked_add u64_max revision_of map_values
first_saved = refl

no_lost_update_example : is_ok (save memory first_save allow ((lit "h", saved) ∷ [])).0 ≡ false
no_lost_update_example =
    no_lost_update memory memory-IsLawful first_save first_save allow allow []
      ((lit "h", saved) ∷ [])
      (record { profile = saved; has_secret = true; password_stored = true }) 0 first_saved refl
      refl refl

save_outcome_example :
    (cert : Str) × (certificate_pin [] ≡ ok cert)
    × (is_none_or first_save.expected_revision (λ e. e == revision_of (lookup (lit "h") [])) ≡ true)
    × (shown (lit "h") ((lit "h", saved) ∷ []) ≡ (
        if lit "h" == lit "h"
        then some (stored_profile first_save cert [])
        else shown (lit "h") []))
save_outcome_example =
    save_outcome memory memory-IsLawful first_save allow [] ((lit "h", saved) ∷ [])
      (record { profile = saved; has_secret = true; password_stored = true }) (lit "h") first_saved

abbrev no_references : ReferencedCatalog
no_references = record { profiles = []; stored = []; unknown = [] }

-- A backend whose commit fails after the metadata have been replaced; its state is the metadata.
abbrev late : ReferenceBackend ReferencedCatalog ReferencedCatalog
late = record {
  allocate_reference = λ w. (lit "r", w);
  begin = λ i w. (ok w, w);
  write_secret = λ r s w. (ok tt, w);
  commit_metadata = λ c w. (err recovery_required, c);
  collect = λ h i w. (ok tt, w);
}

late-ReplacesMetadata : ReplacesMetadata late (λ w. w) (λ c. c)
late-ReplacesMetadata = record {
  allocating = λ w. refl;
  beginning = λ i w. refl;
  writing = λ r s w. refl;
  collecting = λ h i w. refl;
  succeeding = λ c w h. absurd (ground (arith, h));
  failing = λ c w e h. inr refl;
}

commit_referenced_atomic_example :
    Replaced late
      (λ w. w)
      (λ c. c)
      late-ReplacesMetadata
      (lit "h")
      ((lit "h", home) ∷ [])
      no_references
      (commit_referenced late no_references
        ((lit "h", home) ∷ [])
        ((lit "h", replace (lit "s")) ∷ [])
        no_references)
commit_referenced_atomic_example =
    commit_referenced_atomic late (λ w. w) (λ c. c) late-ReplacesMetadata no_references
      ((lit "h", home) ∷ []) ((lit "h", replace (lit "s")) ∷ []) no_references (lit "h")

credential_gc_exact_example :
    (contains (lit "b") (credential_gc (lit "a" ∷ lit "b" ∷ []) ((lit "a", tt) ∷ []) []).delete ≡ (
      has_id (lit "b") (lit "a" ∷ lit "b" ∷ [])
      && not (contains (lit "b") ((lit "a", tt) ∷ []))
      && not (contains (lit "b") [])))
    × ((credential_gc (lit "a" ∷ lit "b" ∷ []) ((lit "a", tt) ∷ []) []).deferred_for_backup
        ≡ any
            (λ c. not (contains c ((lit "a", tt) ∷ [])) && contains c [])
            (lit "a" ∷ lit "b" ∷ []))
credential_gc_exact_example =
    credential_gc_exact (lit "a" ∷ lit "b" ∷ []) ((lit "a", tt) ∷ []) [] (lit "b")

-- A JSON library that writes the version and then the profiles, which are numbers.
abbrev numbers : Json (List ℕ) ℕ
numbers = record {
  from_slice = λ b. some b;
  is_array = λ v. false;
  to_profiles = λ v. none;
  to_document = λ v. elim v [
    | [] ↦ none
    | version ∷ profiles ↦ some (record { schema_version = version; profiles = profiles })
  ];
  to_vec_pretty = λ d. some (d.schema_version ∷ d.profiles);
}

numbers-IsFaithful : IsFaithful numbers
numbers-IsFaithful = record {
  reads = λ d b e. (d.schema_version ∷ d.profiles, ground (arith, e), refl, refl);
}

decode-encode_example :
    decode numbers (1 ∷ 7 ∷ 8 ∷ []) ≡ ok (record { profiles = 7 ∷ 8 ∷ []; legacy = false })
unfolding encode
decode-encode_example = decode-encode numbers (7 ∷ 8 ∷ []) (1 ∷ 7 ∷ 8 ∷ []) numbers-IsFaithful refl
