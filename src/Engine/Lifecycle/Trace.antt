-- ===== src/Engine/Lifecycle/Trace.antt =====
-- The lifecycle over a stream of events: replay protection, and cleanup after network changes.
use mathlib.Core.Path.{subst}
use openfortivpn.Base.{
  arith, ◌≡◌, Bool, true, false, some, none, Option-cases, Bool-cases, inl, inr, [], ◌∷◌, Option,
  List, ℕ, All, if◌then◌else◌, is_none_or, ltb,
}
use openfortivpn.Base.Error.{Result, ok}
use openfortivpn.Engine.Lifecycle.{
  EngineLifecycle, observe, reaped, require_recovery, Event, record_event, protocol_of, is_cleanup,
  touches_network,
}
use openfortivpn.Engine.Cursor.{accept, advance}

pub observe_all : EngineLifecycle → List Event → EngineLifecycle
observe_all l [] = l
observe_all l (e ∷ es) = observe_all (observe l e).1 es

abbrev is_accepted : Result Bool → Bool
is_accepted (ok true) = true
is_accepted _ = false

-- The sequence numbers of the events that are accepted, in order.
pub accepted : EngineLifecycle → List Event → List ℕ
accepted l [] = []
accepted l (e ∷ es) =
    let rest = accepted (observe l e).1 es in
    elim e.seq [ none ↦ rest | some seq ↦ if is_accepted (observe l e).0 then seq ∷ rest else rest ]

-- Strictly rising, and above what the cursor has seen.
abbrev pub RisesAbove : Option ℕ → List ℕ → Type 0
RisesAbove last [] = Unit
RisesAbove last (n ∷ ns) = (is_none_or last (λ m. ltb m n) ≡ true) × RisesAbove (some n) ns

-- An event without a sequence number leaves the cursor.
observe_unnumbered :
    (l : EngineLifecycle) (e : Event) → e.seq ≡ none → (observe l e).1.cursor ≡ l.cursor
unfolding observe accept advance require_recovery record_event
observe_unnumbered l e h = ground arith

-- An event that is not accepted leaves the cursor.
observe_rejected :
    (l : EngineLifecycle) (e : Event)
    → is_accepted (observe l e).0 ≡ false
    → (observe l e).1.cursor ≡ l.cursor
unfolding observe accept advance require_recovery record_event
observe_rejected l e h = ground arith

-- An accepted event moves the cursor up to its sequence number.
observe_accepted :
    (l : EngineLifecycle) (e : Event) (seq : ℕ)
    → is_accepted (observe l e).0 ≡ true
    → e.seq ≡ some seq
    → (observe l e).1.cursor.last ≡ some seq
unfolding observe accept advance require_recovery record_event
observe_accepted l e seq h s = ground arith

observe_above :
    (l : EngineLifecycle) (e : Event) (seq : ℕ)
    → is_accepted (observe l e).0 ≡ true
    → e.seq ≡ some seq
    → is_none_or l.cursor.last (λ m. ltb m seq) ≡ true
unfolding observe accept advance require_recovery record_event
observe_above l e seq h s = ground arith

-- The accepted sequence numbers of any stream rise strictly, from above the last one that the
-- cursor has seen: no event is accepted twice or out of order.
pub accepted_rises :
    (l : EngineLifecycle) (es : List Event) → RisesAbove l.cursor.last (accepted l es)
unfolding accepted
accepted_rises l [] = tt
accepted_rises l (e ∷ es) = elim (Option-cases e.seq) [
  | inl missing ↦ rw missing (
      subst (λ c. RisesAbove c.last (accepted (observe l e).1 es)) (observe_unnumbered l e missing)
        (accepted_rises (observe l e).1 es))
  | inr (seq, given) ↦ elim (Bool-cases (is_accepted (observe l e).0)) [
    | inl taken ↦
        rw (given, taken)
          ((
            observe_above l e seq taken given,
            subst (λ c. RisesAbove c (accepted (observe l e).1 es))
                (observe_accepted l e seq taken given) (accepted_rises (observe l e).1 es),
          ))
    | inr refused ↦
        rw (given, refused)
          (subst (λ c. RisesAbove c.last (accepted (observe l e).1 es))
            (observe_rejected l e refused) (accepted_rises (observe l e).1 es))
  ]
]

-- The network stays pending while no cleanup result is observed.
observe_pending :
    (l : EngineLifecycle) (e : Event)
    → is_cleanup e ≡ false
    → l.network_pending ≡ true
    → l.protocol_v2 ≡ true
    → ((observe l e).1.network_pending ≡ true) × ((observe l e).1.protocol_v2 ≡ true)
unfolding observe require_recovery record_event
observe_pending l e quiet p v = ground arith

observe_all_pending :
    (l : EngineLifecycle) (es : List Event)
    → All (λ e. is_cleanup e ≡ false) es
    → l.network_pending ≡ true
    → l.protocol_v2 ≡ true
    → ((observe_all l es).network_pending ≡ true) × ((observe_all l es).protocol_v2 ≡ true)
unfolding observe_all
observe_all_pending l [] q p v = (p, v)
observe_all_pending l (e ∷ es) q p v =
    let (p', v') = observe_pending l e q.0 p v in observe_all_pending (observe l e).1 es q.1 p' v'

accepted_pending :
    (l : EngineLifecycle) (e : Event)
    → (observe l e).0 ≡ ok true
    → protocol_of e ≡ 2
    → touches_network e ≡ true
    → is_cleanup e ≡ false
    → ((observe l e).1.network_pending ≡ true) × ((observe l e).1.protocol_v2 ≡ true)
unfolding observe require_recovery record_event
accepted_pending l e done v t quiet = ground arith

-- Once a version 2 event that touches the network is accepted, a reap reports a clean exit in no
-- case while the events that follow hold no cleanup result, complete output or not, forced or not.
pub unclean_without_result :
    (l : EngineLifecycle) (e : Event) (es : List Event) (output_complete forced : Bool)
    → (observe l e).0 ≡ ok true
    → protocol_of e ≡ 2
    → touches_network e ≡ true
    → is_cleanup e ≡ false
    → All (λ x. is_cleanup x ≡ false) es
    → (reaped (observe_all (observe l e).1 es) output_complete forced).0 ≡ false
unfolding reaped require_recovery
unclean_without_result l e es c f done v t quiet q =
    let (p, v2) = accepted_pending l e done v t quiet in
    let (pending, version) = observe_all_pending (observe l e).1 es q p v2 in ground arith
