-- ===== src/Network/Store/Changes.antt =====
-- The changes that the coordinator makes to its leases keep them consistent.
use mathlib.Core.Path.{subst}
use openfortivpn.Base.{
  ◌≡◌, refl, ap, ◌∙◌, ◌<◌, List, [], ◌∷◌, Option, some, true, false, not, ◌==◌, ◌&&◌, length, All,
  arith, ℕ, zero, suc, Bool, Bool-cases, Option-cases, inl, inr, find,
}
use openfortivpn.Base.Text.{Str, str_equality}
use openfortivpn.Base.Dict.{Dict, lookup, remove, length-remove-le}
use openfortivpn.Base.Error.{ok, Result-cases}
use openfortivpn.Network.Model.{
  Resource, Entry, Lease, Plan, BackendCapabilities, Phase, active, phase_equality, applying,
}
use openfortivpn.Network.Leases.{
  bad_fingerprint, set_phase, set_fingerprint, fresh_lease, shared_creation, recovered_lease,
  interrupted, with_fingerprint, modify_at,
}
use openfortivpn.Network.Validate.{validate, validate_resources, checked_interface}
use openfortivpn.Network.Store.Loaded.{resources_of, IsConsistent}
use openfortivpn.Network.Store.Loadable.{KeepsConsistent, Consistent}
use openfortivpn.Network.Conflict.{shareable}

abbrev pub IsReportable : Option Str → Type 0
IsReportable f = bad_fingerprint f ≡ false

abbrev pub AllReportable : List Entry → Type 0
AllReportable es = All (λ (e : Entry). bad_fingerprint e.fingerprint ≡ false) es

modify_at-resources :
    (i : ℕ) (f : Option Str) (es : List Entry)
    → resources_of (modify_at i (with_fingerprint f) es) ≡ resources_of es
modify_at-resources i f [] = refl
modify_at-resources zero f (e ∷ es) = refl
modify_at-resources (suc i) f (e ∷ es) =
    ap (λ (rs : List Resource). e.resource ∷ rs) (modify_at-resources i f es)

modify_at-AllReportable :
    (i : ℕ) (f : Option Str) (es : List Entry)
    → IsReportable f
    → AllReportable es
    → AllReportable (modify_at i (with_fingerprint f) es)
modify_at-AllReportable i f [] k h = tt
modify_at-AllReportable zero f (e ∷ es) k h = (k, h.1)
modify_at-AllReportable (suc i) f (e ∷ es) k h = (h.0, modify_at-AllReportable i f es k h.1)

pub fingerprint-KeepsConsistent :
    (i : ℕ) (f : Option Str) → IsReportable f → KeepsConsistent (set_fingerprint i f)
fingerprint-KeepsConsistent i f k id lease (mine, valid, same, fine) = (
  mine,
  valid,
  modify_at-resources i f lease.entries ∙ same,
  modify_at-AllReportable i f lease.entries k fine,
)

pub phase-KeepsConsistent : (p : Phase) (u : Bool) → KeepsConsistent (set_phase p u)
phase-KeepsConsistent p u id lease h = h

pub recovered-KeepsConsistent : KeepsConsistent recovered_lease
recovered-KeepsConsistent id lease h = h

pub interrupted-KeepsConsistent : KeepsConsistent interrupted
interrupted-KeepsConsistent id lease h = elim (Bool-cases (lease.phase == applying)) [
  | inl was ↦ rw was h
  | inr was ↦ rw was h
]

find-holds :
    (p : Entry → Bool) (es : List Entry) (e : Entry)
    → AllReportable es
    → find p es ≡ some e
    → IsReportable e.fingerprint
find-holds p [] e h k = absurd (ground (arith, k))
find-holds p (x ∷ es) e h k = elim (Bool-cases (p x)) [
  | inl here ↦
      let same : x ≡ e = ground (arith, k, here) in
      subst (λ (y : Entry). bad_fingerprint y.fingerprint ≡ false) same h.0
  | inr there ↦ find-holds p es e h.1 (ground (arith, k, there))
]

-- The fingerprint of a shared creation is one that a backend may report.
pub shared_creation-IsReportable :
    (attempt : Str) (resource : Resource) (d : Dict Lease) (e : Entry)
    → Consistent d
    → shared_creation attempt resource d ≡ some e
    → IsReportable e.fingerprint
shared_creation-IsReportable attempt resource [] e h k = absurd (ground (arith, k))
shared_creation-IsReportable attempt resource ((id, lease) ∷ d) e h k =
    elim (Bool-cases (not (id == attempt) && lease.phase == active)) [
      | inr other ↦ shared_creation-IsReportable attempt resource d e h.1 (ground (arith, k, other))
      | inl candidate ↦
          elim (Option-cases
            (find (λ (o : Entry). shareable resource o.resource && not o.borrowed) lease.entries)) [
              | inl missing ↦
                  shared_creation-IsReportable attempt resource d e h.1
                    (ground (arith, k, candidate, missing))
              | inr (x, found) ↦
                  let same : x ≡ e = ground (arith, k, candidate, found) in
                  subst (λ (y : Entry). bad_fingerprint y.fingerprint ≡ false) same
                    (find-holds (λ (o : Entry). shareable resource o.resource && not o.borrowed)
                      lease.entries x h.0.3 found)
            ]
    ]

-- A plan that is valid for some backend is valid for one with split DNS.
checked_split :
    (caps : BackendCapabilities) (r : Resource) (i : Str)
    → checked_interface caps r ≡ ok i
    → checked_interface (record { split_dns = true }) r ≡ ok i
unfolding checked_interface
checked_split caps (Resource.route r) i h = h
checked_split caps (Resource.dns d) i h = ground (arith, h)

validate_resources_split :
    (caps : BackendCapabilities) (seen rs : List Resource)
    → validate_resources caps seen rs ≡ ok tt
    → validate_resources (record { split_dns = true }) seen rs ≡ ok tt
unfolding validate_resources
validate_resources_split caps seen [] h = refl
validate_resources_split caps seen (r ∷ rs) h = elim (Result-cases (checked_interface caps r)) [
  | inr (e, f) ↦ absurd (ground (arith, h, f))
  | inl (i, f) ↦
      ground (arith, h, f, checked_split caps r i f, validate_resources_split caps (r ∷ seen) rs)
]

pub validate_split :
    (p : Plan) (caps : BackendCapabilities)
    → validate p caps ≡ ok tt
    → validate p (record { split_dns = true }) ≡ ok tt
unfolding validate
validate_split p caps h = ground (arith, h, validate_resources_split caps [] p.resources)

pub fresh_lease-IsConsistent :
    (p : Plan) (caps : BackendCapabilities) (es : List Entry)
    → validate p caps ≡ ok tt
    → resources_of es ≡ p.resources
    → AllReportable es
    → IsConsistent p.attempt_id (fresh_lease p es)
fresh_lease-IsConsistent p caps es valid same fine = (refl, validate_split p caps valid, same, fine)

pub length-remove-lt :
    (id : Str) (d : Dict Lease) (lease : Lease)
    → lookup id d ≡ some lease
    → length (remove id d) < length d
unfolding lookup remove
length-remove-lt id [] lease e = absurd (ground (arith, e))
length-remove-lt id ((j, old) ∷ d) lease e = elim (Bool-cases (j == id)) [
  | inl here ↦ rw here (omega (arith, length-remove-le id d))
  | inr there ↦ rw there (omega (arith, length-remove-lt id d lease (ground (arith, e, there))))
]
