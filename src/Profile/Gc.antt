-- ===== src/Profile/Gc.antt =====
-- Which credentials the recovery deletes.
use openfortivpn.Base.{
  arith, ◌≡◌, true, false, [], ◌∷◌, inl, inr, Bool-cases, List, not, ◌||◌, ◌&&◌, any,
}
use openfortivpn.Base.Text.{Str, str_equality, str_beq_iff}
use openfortivpn.Profile.Archive.{gc_loop, credential_gc, has_id, StrSet, CredentialGc, contains}
use openfortivpn.Base.Dict.{lookup-insert, insert, lookup}

gc_loop_delete :
    (k : Str) (cs : List Str) (active backup : StrSet) (gc : CredentialGc)
    → contains k (gc_loop cs active backup gc).delete ≡ (
        contains k gc.delete || (has_id k cs && not (contains k active) && not (contains k backup)))
unfolding gc_loop has_id
gc_loop_delete k [] active backup gc = ground arith
gc_loop_delete k (c ∷ cs) active backup gc = elim (Bool-cases (contains c active)) [
  | inl live ↦ ground (arith, live, str_beq_iff c k, gc_loop_delete k cs active backup gc)
  | inr dead ↦ elim (Bool-cases (contains c backup)) [
    | inl kept ↦ ground (
      arith,
      dead,
      kept,
      str_beq_iff c k,
      gc_loop_delete k cs active backup (record gc { deferred_for_backup = true }),
    )
    | inr unused ↦ ground (
      arith,
      dead,
      unused,
      str_beq_iff c k,
      lookup-insert c k tt gc.delete,
      gc_loop_delete k cs active backup (record gc { delete = insert c tt gc.delete }),
    )
  ]
]

gc_loop_deferred :
    (cs : List Str) (active backup : StrSet) (gc : CredentialGc)
    → (gc_loop cs active backup gc).deferred_for_backup
      ≡ (gc.deferred_for_backup || any (λ c. not (contains c active) && contains c backup) cs)
unfolding gc_loop
gc_loop_deferred [] active backup gc = ground arith
gc_loop_deferred (c ∷ cs) active backup gc = elim (Bool-cases (contains c active)) [
  | inl live ↦ ground (arith, live, gc_loop_deferred cs active backup gc)
  | inr dead ↦ elim (Bool-cases (contains c backup)) [
    | inl kept ↦ ground (
      arith,
      dead,
      kept,
      gc_loop_deferred cs active backup (record gc { deferred_for_backup = true }),
    )
    | inr unused ↦ ground (
      arith,
      dead,
      unused,
      gc_loop_deferred cs active backup (record gc { delete = insert c tt gc.delete }),
    )
  ]
]

-- The recovery deletes exactly the candidates that neither the active catalog nor the backup names,
-- and reports a deferral exactly when a candidate is named by the backup alone.
pub credential_gc_exact :
    (cs : List Str) (active backup : StrSet) (k : Str)
    → (contains k (credential_gc cs active backup).delete
        ≡ (has_id k cs && not (contains k active) && not (contains k backup)))
      × ((credential_gc cs active backup).deferred_for_backup
          ≡ any (λ c. not (contains c active) && contains c backup) cs)
unfolding credential_gc has_id lookup
credential_gc_exact cs active backup k =
    let none_yet : CredentialGc = record { delete = []; deferred_for_backup = false } in
    (gc_loop_delete k cs active backup none_yet, gc_loop_deferred cs active backup none_yet)
