-- ===== src/Network/Handshake/Collected.antt =====
-- What a handshake collects: the resources of the frames that it accepts.
use mathlib.Core.List.{append-nil, append_assoc}
use openfortivpn.Base.{
  refl, arith, ◌≡◌, some, none, true, false, [], ◌∷◌, Bool-cases, Option-cases, if◌then◌else◌, Bool,
  List, Option, ℕ, ◌==◌, inl, inr, ◌++◌, ◌&&◌, option_equality, sym, ◌∙◌,
}
use openfortivpn.Base.Error.{ok, err, Result}
use openfortivpn.Base.Text.{Str, lit, str_equality, str_beq, str_beq_iff}
use openfortivpn.Network.Handshake.{
  Event, Admission, InterfaceBinding, observe_frame, observe_request, observe_begin,
  observe_resource, observe_commit, conclude, new_admission, Answer, is_foreign_frame, check_plan,
  is_unexpected,
}
use openfortivpn.Network.Model.{Plan, Resource}
use openfortivpn.Network.Handshake.Committed.{commit_protects}
use openfortivpn.Auth.Frame.{valid_request}

abbrev option_list : Option Resource → List Resource
option_list none = []
option_list (some r) = r ∷ []

abbrev is_taken : Answer → Bool
is_taken (ok none) = true
is_taken _ = false

-- The resource of a frame that is answered as an accepted resource.
unfoldable pub taken : Admission → Event → ℕ → List Resource
taken a e epoch =
    if is_taken (observe_frame a e epoch).1 && e.event == some (lit "network_resource")
    then option_list e.resource
    else []

-- The state after a stream.
unfoldable pub observe_frames : Admission → List (Event × ℕ) → Admission
observe_frames a [] = a
observe_frames a ((e, epoch) ∷ es) = observe_frames (observe_frame a e epoch).0 es

-- The resources of the accepted frames, in order.
unfoldable pub taken_all : Admission → List (Event × ℕ) → List Resource
unfolding taken
taken_all a [] = []
taken_all a ((e, epoch) ∷ es) = taken a e epoch ++ taken_all (observe_frame a e epoch).0 es

conclude_resources :
    (a : Admission) (epoch : ℕ) (b : InterfaceBinding) (r : Result (Unit {0}))
    → (conclude a epoch b r).0.resources ≡ a.resources
unfolding conclude
conclude_resources a epoch b (ok tt) = refl
conclude_resources a epoch b (err c) = refl

commit_resources :
    (a : Admission) (id : Str) (epoch : ℕ) → (observe_commit a id epoch).0.resources ≡ a.resources
unfolding observe_commit
commit_resources a id epoch = elim (Option-cases a.binding) [
  | inl f ↦ ground (arith, f)
  | inr (b, f) ↦ ground (arith, f, conclude_resources a epoch b (check_plan a epoch b))
]

conclude_not_taken :
    (a : Admission) (epoch : ℕ) (b : InterfaceBinding) (r : Result (Unit {0}))
    → is_taken (conclude a epoch b r).1 ≡ false
unfolding conclude
conclude_not_taken a epoch b (ok tt) = refl
conclude_not_taken a epoch b (err c) = refl

begin_resources :
    (a : Admission) (id : Str) (e : Event) → (observe_begin a id e).0.resources ≡ a.resources
unfolding observe_begin
begin_resources a id e = ground arith

resource_resources :
    (a : Admission) (id : Str) (e : Event)
    → (observe_resource a id e).0.resources
      ≡ a.resources ++ (if is_taken (observe_resource a id e).1 then option_list e.resource else [])
unfolding observe_resource
resource_resources a id e = elim (Bool-cases (is_unexpected a id e)) [
  | inl t ↦ rw t (sym (append-nil a.resources))
  | inr f ↦ elim (Option-cases e.resource) [
    | inl g ↦ rw (f, g) (sym (append-nil a.resources))
    | inr (r, g) ↦ rw (f, g) refl
  ]
]

-- The three names of the events differ.
names_differ :
    (o : Option Str) (s t : Str)
    → str_beq s t ≡ false
    → (o == some s) ≡ true
    → (o == some t) ≡ false
names_differ o s t d h = elim (Bool-cases (o == some t)) [
  | inl k ↦
      let p : some s ≡ some t =
        sym (((option_equality {A = Str}).beq_iff o (some s)).0 h)
        ∙ ((option_equality {A = Str}).beq_iff o (some t)).0 k in
      absurd (ground (arith, d, (str_beq_iff s t).1, p))
  | inr k ↦ k
]

begin_not_resource :
    (e : Event)
    → (e.event == some (lit "network_begin")) ≡ true
    → (e.event == some (lit "network_resource")) ≡ false
unfolding str_beq lit
begin_not_resource e = names_differ e.event (lit "network_begin") (lit "network_resource") refl

-- The resource that an answer to a frame takes, which `named` says is a resource frame.
abbrev Grows : Admission → Event → Bool → Admission × Answer → Type 0
Grows a e named r =
    r.0.resources ≡ a.resources ++ (if is_taken r.1 && named then option_list e.resource else [])

kept-Grows :
    (a : Admission) (e : Event) (named : Bool) (r : Admission × Answer)
    → r.0.resources ≡ a.resources
    → (is_taken r.1 && named) ≡ false
    → Grows a e named r
kept-Grows a e named r h k = rw (h, k) (sym (append-nil a.resources))

commit_not_taken :
    (a : Admission) (id : Str) (epoch : ℕ) → is_taken (observe_commit a id epoch).1 ≡ false
unfolding observe_commit
commit_not_taken a id epoch = elim (Option-cases a.binding) [
  | inl f ↦ ground (arith, f)
  | inr (b, f) ↦ ground (arith, f, conclude_not_taken a epoch b (check_plan a epoch b))
]

request-Grows :
    (a : Admission) (id : Str) (e : Event) (epoch : ℕ)
    → Grows a e (e.event == some (lit "network_resource")) (observe_request a id e epoch)
unfolding observe_request
request-Grows a id e epoch = elim (Bool-cases (e.event == some (lit "network_begin"))) [
  | inl f ↦
      kept-Grows a e (e.event == some (lit "network_resource")) (observe_request a id e epoch)
        (rw f (begin_resources a id e)) (ground (arith, begin_not_resource e f))
  | inr f ↦ elim (Bool-cases (e.event == some (lit "network_resource"))) [
    | inl g ↦ ground (arith, f, g, resource_resources a id e)
    | inr g ↦
        kept-Grows a e (e.event == some (lit "network_resource")) (observe_request a id e epoch)
          (ground (arith, f, g, commit_resources a id epoch)) (ground (arith, g))
  ]
]

frame-Grows :
    (a : Admission) (e : Event) (epoch : ℕ)
    → (observe_frame a e epoch).0.resources ≡ a.resources ++ taken a e epoch
unfolding observe_frame taken
frame-Grows a e epoch = elim (Bool-cases (is_foreign_frame a e)) [
  | inl f ↦ rw f (sym (append-nil a.resources))
  | inr f ↦ elim (Option-cases e.request_id) [
    | inl g ↦ rw (f, g) (sym (append-nil a.resources))
    | inr (id, g) ↦ elim (Bool-cases (valid_request id)) [
      | inl v ↦ rw (f, g, v) (request-Grows a id e epoch)
      | inr v ↦ rw (f, g, v) (sym (append-nil a.resources))
    ]
  ]
]

frames_grow :
    (a : Admission) (es : List (Event × ℕ))
    → (observe_frames a es).resources ≡ a.resources ++ taken_all a es
unfolding observe_frames taken_all
frames_grow a [] = sym (append-nil a.resources)
frames_grow a ((e, epoch) ∷ es) =
    rw (frames_grow (observe_frame a e epoch).0 es, frame-Grows a e epoch)
      (append_assoc a.resources (taken a e epoch) (taken_all (observe_frame a e epoch).0 es))

-- The plan that a frame commits after a stream of frames from a new admission on has exactly the
-- resources of the frames that were accepted as resources, in their order.
pub committed_collects :
    (attempt profile : Str) (generation : ℕ) (es : List (Event × ℕ)) (e : Event) (epoch : ℕ)
    (plan : Plan) (b : InterfaceBinding)
    → (observe_frame (observe_frames (new_admission attempt profile generation) es) e epoch).1
      ≡ ok (some (plan, b))
    → plan.resources ≡ taken_all (new_admission attempt profile generation) es
unfolding new_admission
committed_collects attempt profile generation es e epoch plan b h =
    let a = new_admission attempt profile generation in
    (commit_protects (observe_frames a es) e epoch plan b h).4 ∙ frames_grow a es
