-- ===== src/Profile/Restore.antt =====
-- Revisions of a restored catalog.
use openfortivpn.Base.{arith, ◌≡◌, some, [], ◌∷◌, inl, inr, List, max, ◌<◌, checked_add-eq-some}
use openfortivpn.Base.Error.{ok, Result-cases}
use openfortivpn.Base.Text.{Str, str_equality, str_beq_iff}
use openfortivpn.Profile.Archive.{
  restored_profile, restore_all, prepare_restored_catalog, revision_of,
}
use openfortivpn.Profile.Model.{Catalog, VpnProfile}
use openfortivpn.Base.Dict.{lookup, insert, lookup-insert}

restored_profile_newer :
    (current : Catalog) (p q : VpnProfile)
    → restored_profile current p ≡ ok q
    → (revision_of (lookup q.id current) < q.revision) × (p.revision < q.revision) × (q.id ≡ p.id)
unfolding restored_profile
restored_profile_newer current p q h =
    ground
      (arith, checked_add-eq-some (max p.revision (revision_of (lookup p.id current))) 1 q.revision)

restore_all_newer :
    (current restored result : Catalog) (ps : List VpnProfile) (id : Str) (q : VpnProfile)
    → restore_all current restored ps ≡ ok result
    → ((r : VpnProfile)
        → lookup id restored ≡ some r
        → (r.id ≡ id) × (revision_of (lookup id current) < r.revision))
    → lookup id result ≡ some q
    → (q.id ≡ id) × (revision_of (lookup id current) < q.revision)
unfolding restore_all
restore_all_newer current restored result [] id q done newer found = newer q (ground arith)
restore_all_newer current restored result (p ∷ ps) id q done newer found =
    elim (Result-cases (restored_profile current p)) [
      | inr (e, bad) ↦ absurd (ground (arith, bad))
      | inl (r, fine) ↦
          restore_all_newer current (insert r.id r restored) result ps id q (ground (arith, fine))
            (λ s inside. ground (
              arith,
              lookup-insert r.id id r restored,
              str_beq_iff r.id id,
              restored_profile_newer current p r fine,
              newer s,
            ))
            found
    ]

-- Every profile of a restored catalog stands under its own id and has a revision above the one that
-- the catalog had for it: a client that knows an older revision meets a conflict.
pub restored_newer :
    (ps : List VpnProfile) (current restored : Catalog) (id : Str) (q : VpnProfile)
    → prepare_restored_catalog ps current ≡ ok restored
    → lookup id restored ≡ some q
    → (q.id ≡ id) × (revision_of (lookup id current) < q.revision)
unfolding prepare_restored_catalog lookup
restored_newer ps current restored id q done found =
    restore_all_newer current [] restored ps id q (ground arith)
      (λ r none_yet. absurd (ground arith)) found
