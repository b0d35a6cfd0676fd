-- ===== src/Network/Handshake/Stream.antt =====
-- The handshake over a stream of frames, each with the epoch at which it is observed.
use openfortivpn.Base.{
  refl, arith, ◌≡◌, some, none, true, [], ◌∷◌, Option-cases, List, ℕ, inl, inr, ◌≤◌, length, ◌++◌,
  option_equality,
}
use openfortivpn.Base.Error.{ok, err, Result, Result-cases, invalid_input}
use openfortivpn.Base.Text.{Str, str_equality}
use openfortivpn.Network.Handshake.{
  Event, Admission, InterfaceBinding, observe_frame, observe_request, observe_commit, conclude,
  Answer, is_foreign_frame, check_plan,
}
use openfortivpn.Network.Model.{Plan}
use openfortivpn.Network.Handshake.Committed.{begin_never, resource_never}

-- The commits that an answer reports.
abbrev reported : Answer → List (Plan × InterfaceBinding)
reported (ok (some out)) = out ∷ []
reported _ = []

-- All commits of a stream.
unfoldable pub commits : Admission → List (Event × ℕ) → List (Plan × InterfaceBinding)
commits a [] = []
commits a ((e, epoch) ∷ es) = let r = observe_frame a e epoch in reported r.1 ++ commits r.0 es

committed_silent :
    (a : Admission) (e : Event) (epoch : ℕ)
    → a.committed ≡ true
    → observe_frame a e epoch ≡ (a, err invalid_input)
unfolding observe_frame is_foreign_frame
committed_silent a e epoch h = ground (arith, h)

committed_commits : (a : Admission) (es : List (Event × ℕ)) → a.committed ≡ true → commits a es ≡ []
unfolding commits
committed_commits a [] h = refl
committed_commits a ((e, epoch) ∷ es) h =
    rw (committed_silent a e epoch h) (committed_commits a es h)

conclude_commits :
    (a : Admission) (epoch : ℕ) (b : InterfaceBinding) (r : Result (Unit {0}))
    (out : Plan × InterfaceBinding)
    → (conclude a epoch b r).1 ≡ ok (some out)
    → (conclude a epoch b r).0.committed ≡ true
unfolding conclude
conclude_commits a epoch b (ok tt) out h = refl
conclude_commits a epoch b (err c) out h = cc

commit_commits :
    (a : Admission) (id : Str) (epoch : ℕ) (out : Plan × InterfaceBinding)
    → (observe_commit a id epoch).1 ≡ ok (some out)
    → (observe_commit a id epoch).0.committed ≡ true
unfolding observe_commit
commit_commits a id epoch out h = elim (Option-cases a.binding) [
  | inl f ↦ absurd (ground (arith, h, f))
  | inr (b, f) ↦ ground (arith, h, f, conclude_commits a epoch b (check_plan a epoch b) out)
]

request_commits :
    (a : Admission) (id : Str) (e : Event) (epoch : ℕ) (out : Plan × InterfaceBinding)
    → (observe_request a id e epoch).1 ≡ ok (some out)
    → (observe_request a id e epoch).0.committed ≡ true
unfolding observe_request
request_commits a id e epoch out h =
    ground
      (arith, h, begin_never a id e out, resource_never a id e out, commit_commits a id epoch out)

frame_commits :
    (a : Admission) (e : Event) (epoch : ℕ) (out : Plan × InterfaceBinding)
    → (observe_frame a e epoch).1 ≡ ok (some out)
    → (observe_frame a e epoch).0.committed ≡ true
unfolding observe_frame
frame_commits a e epoch out h = elim (Option-cases e.request_id) [
  | inl f ↦ absurd (ground (arith, h, f))
  | inr (id, f) ↦ ground (arith, h, f, request_commits a id e epoch out)
]

-- Of the frames of any stream at most one commits.
pub commits_once : (a : Admission) (es : List (Event × ℕ)) → length (commits a es) ≤ 1
unfolding commits
commits_once a [] = ground arith
commits_once a ((e, epoch) ∷ es) = elim (Result-cases (observe_frame a e epoch).1) [
  | inl (some out, f) ↦
      ground
        (arith, f, committed_commits (observe_frame a e epoch).0 es (frame_commits a e epoch out f))
  | inl (none, f) ↦ ground (arith, f, commits_once (observe_frame a e epoch).0 es)
  | inr (c, f) ↦ ground (arith, f, commits_once (observe_frame a e epoch).0 es)
]
