-- ===== src/Auth/Challenges/Answered.antt =====
-- A challenge is answered at most once.
use openfortivpn.Base.{
  ◌≤◌, ◌<◌, ◌≡◌, refl, sym, arith, some, true, false, [], ◌∷◌, inl, inr, Option-cases, Bool-cases,
  Bool, List, ℕ, not, ◌==◌, ◌&&◌, all, ltb,
}
use openfortivpn.Base.Error.{ok, is_ok}
use openfortivpn.Base.Text.{len, Str, str_equality, str_beq_iff}
use openfortivpn.Base.Dict.{Dict, lookup, retain, remove, insert}
use openfortivpn.Auth.Challenges.{
  Challenge, Challenges, Pending, admit_challenge, register, list, respond, answer, close,
  cancel_attempt, expire,
}
use openfortivpn.Auth.Challenges.Once.{
  Op, registered, listed, responded, closed, cancelled, op_step, op_run, spares, is_seen,
  respond_bound, step_keeps_seen, respond_bound,
}

module _ {ℓ} {V : Type ℓ} (f : Str × V → Bool) where
  all-retain : (p : V → Bool) (d : Dict V) → all f d ≡ true → all f (retain p d) ≡ true
  unfolding retain
  all-retain p [] h = refl
  all-retain p ((k, v) ∷ d) h = ground (arith, h, all-retain p d)

  all-remove : (key : Str) (d : Dict V) → all f d ≡ true → all f (remove key d) ≡ true
  unfolding remove
  all-remove key [] h = refl
  all-remove key ((k, v) ∷ d) h = ground (arith, h, all-remove key d)

  all-insert :
      (key : Str) (new : V) (d : Dict V)
      → f (key, new) ≡ true
      → all f d ≡ true
      → all f (insert key new d) ≡ true
  unfolding insert
  all-insert key new [] e h = ground (arith, e)
  all-insert key new ((k, v) ∷ d) e h = ground (arith, e, h, all-insert key new d)

-- No entry of the key has the property.
abbrev is_free {ℓ} : {V : Type ℓ} → Str → (V → Bool) → Str × V → Bool
is_free key g e = not (e.0 == key && g e.1)

is_free-remove {ℓ} :
    {V : Type ℓ} (key : Str) (g : V → Bool) (d : Dict V) → all (is_free key g) (remove key d) ≡ true
unfolding remove
is_free-remove key g [] = refl
is_free-remove key g ((k, v) ∷ d) = ground (arith, is_free-remove key g d)

is_free-lookup {ℓ} :
    {V : Type ℓ} (key : Str) (g : V → Bool) (d : Dict V) (v : V)
    → all (is_free key g) d ≡ true
    → lookup key d ≡ some v
    → g v ≡ false
unfolding lookup
is_free-lookup key g [] v h e = absurd (ground (arith, e))
is_free-lookup key g ((k, x) ∷ d) v h e = elim (Bool-cases (k == key)) [
  | inl here ↦ let same : x ≡ v = ground (arith, e, here) in rw (sym same) (ground (arith, h, here))
  | inr there ↦ is_free-lookup key g d v (ground (arith, h)) (ground (arith, e, there))
]

module _ (profile attempt request : Str) where
  -- The pending challenge is that of the attempt and request.
  abbrev asks : Pending → Bool
  asks p = p.challenge.attempt_id == attempt && p.challenge.request_id == request

  -- The request was asked, and is not pending for the profile.
  abbrev IsSettled : Challenges → Type 0
  IsSettled c = (is_seen attempt request c ≡ true) × (all (is_free profile asks) c.pending ≡ true)

  admit_keeps_free :
      (challenge : Challenge) (generation now_ms : ℕ) (c : Challenges)
      → IsSettled c
      → all (is_free profile asks) (admit_challenge challenge generation now_ms c).1.pending ≡ true
  unfolding admit_challenge
  admit_keeps_free challenge generation now_ms c h =
      let new : Pending = record { challenge = challenge; generation = generation } in
      elim (Bool-cases (asks new)) [
        | inl again ↦ ground (
          arith,
          h,
          again,
          str_beq_iff challenge.attempt_id attempt,
          str_beq_iff challenge.request_id request,
        )
        | inr other ↦
            ground (
              arith,
              h,
              other,
              all-insert (is_free profile asks) challenge.profile_id new c.pending,
            )
      ]

  step_keeps_free :
      (encode : Str → Str) (c : Challenges) (op : Op)
      → IsSettled c
      → all (is_free profile asks) (op_step encode c op).pending ≡ true
  unfolding op_step register list respond close cancel_attempt expire
  step_keeps_free encode c (registered challenge generation now_ms) h =
      admit_keeps_free challenge generation now_ms (expire now_ms c)
        (h.0, all-retain (is_free profile asks) _ c.pending h.1)
  step_keeps_free encode c (listed now_ms) h = all-retain (is_free profile asks) _ c.pending h.1
  step_keeps_free encode c (responded p a g r n v) h =
      let kept =
        all-retain (is_free profile asks) (λ (q : Pending). ltb n q.challenge.expires_at_ms)
          c.pending h.1 in
      ground (arith, kept, all-remove (is_free profile asks) p (expire n c).pending)
  step_keeps_free encode c (closed p a r) h =
      ground (arith, h, all-remove (is_free profile asks) p c.pending)
  step_keeps_free encode c (cancelled p a) h =
      ground (arith, h, all-remove (is_free profile asks) p c.pending)

  run-IsSettled :
      (encode : Str → Str) (c : Challenges) (ops : List Op)
      → all (spares attempt) ops ≡ true
      → IsSettled c
      → IsSettled (op_run encode c ops)
  unfolding op_run
  run-IsSettled encode c [] s h = h
  run-IsSettled encode c (op ∷ ops) s h =
      run-IsSettled encode (op_step encode c op) ops (ground (arith, s)) (
        step_keeps_seen encode c op attempt request (ground (arith, s)) h.0,
        step_keeps_free encode c op h,
      )

  respond-IsSettled :
      (encode : Str → Str) (generation now_ms : ℕ) (value sent : Str) (c : Challenges)
      → is_seen attempt request c ≡ true
      → (respond encode profile attempt generation request now_ms value c).0 ≡ ok sent
      → IsSettled (respond encode profile attempt generation request now_ms value c).1
  unfolding respond expire op_step spares
  respond-IsSettled encode generation now_ms value sent c seen h = (
    step_keeps_seen encode c (responded profile attempt generation request now_ms value) attempt
        request refl seen,
    ground (arith, h, is_free-remove profile asks (expire now_ms c).pending),
  )

  IsSettled-refuses :
      (encode : Str → Str) (generation now_ms : ℕ) (value : Str) (c : Challenges)
      → IsSettled c
      → is_ok (respond encode profile attempt generation request now_ms value c).0 ≡ false
  unfolding respond answer expire
  IsSettled-refuses encode generation now_ms value c h =
      let left =
        all-retain (is_free profile asks) (λ (q : Pending). ltb now_ms q.challenge.expires_at_ms)
          c.pending h.1 in
      elim (Option-cases (lookup profile (expire now_ms c).pending)) [
        | inl missing ↦ ground (arith, missing)
        | inr (p, found) ↦
            ground
              (arith, found, is_free-lookup profile asks (expire now_ms c).pending p left found)
      ]

-- A response is sent only for the pending challenge of the profile, of the same attempt, request and
-- generation, before it expires and within its limit. And if the request was registered, none is sent
-- for the profile, the attempt and the request again, whatever is done in between short of cancelling
-- the attempt.
pub respond_once :
    (encode : Str → Str) (profile attempt request value sent again : Str) (g g' now later : ℕ)
    (c : Challenges) (ops : List Op)
    → is_seen attempt request c ≡ true
    → (respond encode profile attempt g request now value c).0 ≡ ok sent
    → all (spares attempt) ops ≡ true
    → ((p : Pending) × (lookup profile (expire now c).pending ≡ some p)
        × (p.challenge.attempt_id ≡ attempt)
        × (p.challenge.request_id ≡ request)
        × (p.generation ≡ g)
        × (now < p.challenge.expires_at_ms)
        × (len value ≤ p.challenge.max_response_bytes))
      × (is_ok
            (respond encode profile attempt g' request later again
              (op_run encode (respond encode profile attempt g request now value c).1 ops)).0
          ≡ false)
respond_once encode profile attempt request value sent again g g' now later c ops seen done spared =
    let c' = (respond encode profile attempt g request now value c).1 in
    (
      (respond_bound encode profile attempt request value sent g now c done).0,
      IsSettled-refuses profile attempt request encode g' later again (op_run encode c' ops) (
          run-IsSettled profile attempt request encode c' ops spared
            (respond-IsSettled profile attempt request encode g now value sent c seen done)),
    )
