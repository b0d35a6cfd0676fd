-- ===== src/Connect/Admission.antt =====
-- Which facts admit a connection.
use openfortivpn.Base.{
  refl, arith, ◌≡◌, some, true, false, [], ◌∷◌, inl, inr, Bool-cases, List, not, ◌==◌, any, filter,
}
use openfortivpn.Base.Error.{ok}
use openfortivpn.Connect.{
  ConnectFacts, ConnectionOwner, StartOrigin, admit, admit_current, admit_owned, own, reserve,
  reuse, healthy, user,
}
use openfortivpn.Base.Text.{Str, str_equality, str_beq_iff}

-- With no owner of the profile and none of another one, there is no owner.
owners_empty :
    (id : Str) (owners : List ConnectionOwner)
    → filter (λ (owner : ConnectionOwner). owner.profile_id == id) owners ≡ []
    → any (λ (owner : ConnectionOwner). not (owner.profile_id == id)) owners ≡ false
    → owners ≡ []
owners_empty id [] f a = refl
owners_empty id (o ∷ os) f a = absurd (elim (Bool-cases (o.profile_id == id)) [
  | inl same ↦ ground (arith, same)
  | inr differs ↦ ground (arith, differs)
])

-- With one owner of the profile and none of another one, it is the only owner.
owners_single :
    (id : Str) (owner : ConnectionOwner) (owners : List ConnectionOwner)
    → filter (λ (o : ConnectionOwner). o.profile_id == id) owners ≡ owner ∷ []
    → any (λ (o : ConnectionOwner). not (o.profile_id == id)) owners ≡ false
    → owners ≡ owner ∷ []
owners_single id owner [] f a = absurd (ground (arith, f))
owners_single id owner (o ∷ os) f a = elim (Bool-cases (o.profile_id == id)) [
  | inl same ↦ ground (arith, same, owners_empty id os)
  | inr differs ↦ absurd (ground (arith, differs))
]

-- A connection is reserved only when the profile exists, nothing owns the network, and neither a
-- shutdown, nor a restore, nor a mutation, nor a recovery is under way.
pub reserve_exclusive :
    (facts : ConnectFacts) (origin : StartOrigin)
    → admit facts origin ≡ ok reserve
    → (facts.owners ≡ [])
      × (facts.profile_exists ≡ true)
      × (facts.shutting_down ≡ false)
      × (facts.repository_recovery_required ≡ false)
      × (facts.repository_restoring ≡ false)
      × (facts.profile_mutating ≡ false)
      × (facts.orphaned_recovery ≡ false)
unfolding admit own admit_current admit_owned
reserve_exclusive facts origin h = ground (arith, owners_empty facts.profile_id facts.owners)

own_head :
    (id : Str) (owner : ConnectionOwner) (owners : List ConnectionOwner)
    → filter (λ (o : ConnectionOwner). o.profile_id == id) owners ≡ owner ∷ []
    → owner.profile_id ≡ id
own_head id owner [] f = absurd (ground (arith, f))
own_head id owner (o ∷ os) f = elim (Bool-cases (o.profile_id == id)) [
  | inl same ↦ ground (arith, same, str_beq_iff o.profile_id id)
  | inr differs ↦ ground (arith, differs, own_head id owner os)
]

reuse_current :
    (facts : ConnectFacts) (origin : StartOrigin) (id : Str) (os : List ConnectionOwner)
    → admit_current facts origin os ≡ ok (reuse id)
    → (owner : ConnectionOwner) × (os ≡ owner ∷ [])
      × (any (λ (o : ConnectionOwner). not (o.profile_id == facts.profile_id)) facts.owners ≡ false)
      × (owner.instance_id ≡ some id)
      × (owner.state ≡ healthy)
      × (origin ≡ user)
unfolding admit_current admit_owned
reuse_current facts origin id [] h = absurd (ground arith)
reuse_current facts origin id (o ∷ []) h =
    (o, refl, ground arith, ground arith, ground arith, ground arith)
reuse_current facts origin id (o ∷ p ∷ os) h = absurd (ground arith)

-- A connection is reused only for a user who connects the profile that owns the network alone: its
-- one owner is healthy and has the instance that is answered.
pub reuse_sole_owner :
    (facts : ConnectFacts) (origin : StartOrigin) (id : Str)
    → admit facts origin ≡ ok (reuse id)
    → (owner : ConnectionOwner) × (facts.owners ≡ owner ∷ [])
      × (owner.profile_id ≡ facts.profile_id)
      × (owner.instance_id ≡ some id)
      × (owner.state ≡ healthy)
      × (origin ≡ user)
unfolding admit own
reuse_sole_owner facts origin id h =
    let (owner, single, alone, instance_of, state, origin_of) =
      reuse_current facts origin id (own facts) (ground arith) in
    (
      owner,
      owners_single facts.profile_id owner facts.owners single alone,
      own_head facts.profile_id owner facts.owners single,
      instance_of,
      state,
      origin_of,
    )
