-- ===== src/Auth/Challenges/Once.antt =====
-- A request of an attempt is asked at most once.
use openfortivpn.Base.{
  arith, ◌≡◌, some, none, true, false, [], ◌∷◌, inl, inr, Option-cases, Bool, List, ℕ, not, ◌==◌,
  ◌≤◌, all, ◌<◌, ltb, Bool-cases, sym,
}
use openfortivpn.Base.Error.{ok, is_ok}
use openfortivpn.Base.Text.{Str, str_equality, str_beq_iff, len}
use openfortivpn.Auth.Challenges.{
  Challenge, Challenges, admit_challenge, register, list, seen_of, respond, close, cancel_attempt,
  expire, Pending, answer,
}
use openfortivpn.Profile.Archive.{contains}
use openfortivpn.Base.Dict.{lookup-insert, insert, lookup-remove, lookup, retain, Dict}

-- What a manager does with its challenges.
pub data Op : Type 0 where
  registered : Challenge → ℕ → ℕ → Op
  listed : ℕ → Op
  responded : Str → Str → ℕ → Str → ℕ → Str → Op
  closed : Str → Str → Str → Op
  cancelled : Str → Str → Op

unfoldable pub op_step : (Str → Str) → Challenges → Op → Challenges
op_step encode c (registered challenge generation now_ms) =
    (register challenge generation now_ms c).1
op_step encode c (listed now_ms) = (list now_ms c).1
op_step encode c (responded profile attempt generation request now_ms value) =
    (respond encode profile attempt generation request now_ms value c).1
op_step encode c (closed profile attempt request) = close profile attempt request c
op_step encode c (cancelled profile attempt) = cancel_attempt profile attempt c

unfoldable pub op_run : (Str → Str) → Challenges → List Op → Challenges
op_run encode c [] = c
op_run encode c (op ∷ ops) = op_run encode (op_step encode c op) ops

-- No operation cancels the attempt.
unfoldable pub spares : Str → Op → Bool
spares attempt (cancelled _ cancelled_attempt) = not (cancelled_attempt == attempt)
spares attempt _ = true

abbrev pub is_seen : Str → Str → Challenges → Bool
is_seen attempt request c = contains request (seen_of attempt c)

admit_keeps_seen :
    (challenge : Challenge) (generation now_ms : ℕ) (c : Challenges) (attempt request : Str)
    → is_seen attempt request c ≡ true
    → is_seen attempt request (admit_challenge challenge generation now_ms c).1 ≡ true
unfolding admit_challenge
admit_keeps_seen challenge generation now_ms c attempt request h =
    let ids = seen_of challenge.attempt_id c in
    ground (
      arith,
      str_beq_iff challenge.attempt_id attempt,
      lookup-insert challenge.attempt_id attempt ids c.seen,
      lookup-insert challenge.attempt_id attempt (insert challenge.request_id tt ids) c.seen,
      lookup-insert challenge.request_id request tt ids,
    )

admit_marks_seen :
    (challenge : Challenge) (generation now_ms : ℕ) (c : Challenges)
    → (admit_challenge challenge generation now_ms c).0 ≡ ok tt
    → is_seen challenge.attempt_id challenge.request_id
        (admit_challenge challenge generation now_ms c).1
      ≡ true
unfolding admit_challenge
admit_marks_seen challenge generation now_ms c h =
    let ids = seen_of challenge.attempt_id c in
    ground (
      arith,
      str_beq_iff challenge.attempt_id challenge.attempt_id,
      str_beq_iff challenge.request_id challenge.request_id,
      lookup-insert challenge.attempt_id challenge.attempt_id (insert challenge.request_id tt ids)
          c.seen,
      lookup-insert challenge.request_id challenge.request_id tt ids,
    )

admit_refuses_seen :
    (challenge : Challenge) (generation now_ms : ℕ) (c : Challenges)
    → is_seen challenge.attempt_id challenge.request_id c ≡ true
    → is_ok (admit_challenge challenge generation now_ms c).0 ≡ false
unfolding admit_challenge
admit_refuses_seen challenge generation now_ms c h = ground arith

pub step_keeps_seen :
    (encode : Str → Str) (c : Challenges) (op : Op) (attempt request : Str)
    → spares attempt op ≡ true
    → is_seen attempt request c ≡ true
    → is_seen attempt request (op_step encode c op) ≡ true
unfolding op_step spares register list respond close cancel_attempt expire
step_keeps_seen encode c (registered challenge generation now_ms) attempt request s h =
    admit_keeps_seen challenge generation now_ms (expire now_ms c) attempt request h
step_keeps_seen encode c (listed now_ms) attempt request s h = h
step_keeps_seen encode c (responded p a g r n v) attempt request s h = ground arith
step_keeps_seen encode c (closed p a r) attempt request s h = ground arith
step_keeps_seen encode c (cancelled p a) attempt request s h =
    ground (arith, lookup-remove a attempt c.seen)

pub run_keeps_seen :
    (encode : Str → Str) (c : Challenges) (ops : List Op) (attempt request : Str)
    → all (spares attempt) ops ≡ true
    → is_seen attempt request c ≡ true
    → is_seen attempt request (op_run encode c ops) ≡ true
unfolding op_run
run_keeps_seen encode c [] attempt request s h = h
run_keeps_seen encode c (op ∷ ops) attempt request s h =
    run_keeps_seen encode (op_step encode c op) ops attempt request (ground arith)
      (step_keeps_seen encode c op attempt request (ground arith) h)

-- Once a challenge is registered, no challenge with the same attempt and request is registered
-- again, whatever is done in between short of cancelling the attempt.
pub register_once :
    (encode : Str → Str) (c : Challenges) (first second : Challenge) (g g' now later : ℕ)
    (ops : List Op)
    → (register first g now c).0 ≡ ok tt
    → second.attempt_id ≡ first.attempt_id
    → second.request_id ≡ first.request_id
    → all (spares first.attempt_id) ops ≡ true
    → is_ok (register second g' later (op_run encode (register first g now c).1 ops)).0 ≡ false
unfolding register expire
register_once encode c first second g g' now later ops done same again spared =
    let c' = op_run encode (register first g now c).1 ops in
    let marked = admit_marks_seen first g now (expire now c) done in
    let kept =
      run_keeps_seen encode (register first g now c).1 ops first.attempt_id first.request_id spared
        marked in
    admit_refuses_seen second g' later (expire later c') (rw (same, again) kept)

lookup-retain_holds {ℓ} :
    {V : Type ℓ} (f : V → Bool) (key : Str) (d : Dict V) (v : V)
    → lookup key (retain f d) ≡ some v
    → f v ≡ true
unfolding lookup retain
lookup-retain_holds f key [] v h = absurd (ground (arith, h))
lookup-retain_holds f key ((k, x) ∷ d) v h = elim (Bool-cases (f x)) [
  | inr gone ↦ lookup-retain_holds f key d v (ground (arith, h, gone))
  | inl stays ↦ elim (Bool-cases (k == key)) [
    | inl here ↦ let same : x ≡ v = ground (arith, h, stays, here) in rw (sym same) stays
    | inr there ↦ lookup-retain_holds f key d v (ground (arith, h, stays, there))
  ]
]

-- A response is sent only for the pending challenge of the profile, of the same attempt, request
-- and generation, before it expires and within its limit; the challenge is then used up.
pub respond_bound :
    (encode : Str → Str) (profile attempt request value sent : Str) (generation now_ms : ℕ)
    (c : Challenges)
    → (respond encode profile attempt generation request now_ms value c).0 ≡ ok sent
    → ((p : Pending) × (lookup profile (expire now_ms c).pending ≡ some p)
        × (p.challenge.attempt_id ≡ attempt)
        × (p.challenge.request_id ≡ request)
        × (p.generation ≡ generation)
        × (now_ms < p.challenge.expires_at_ms)
        × (len value ≤ p.challenge.max_response_bytes))
      × (lookup profile (respond encode profile attempt generation request now_ms value c).1.pending
          ≡ none)
unfolding respond answer expire
respond_bound encode profile attempt request value sent generation now_ms c h =
    elim (Option-cases (lookup profile (expire now_ms c).pending)) [
      | inl missing ↦ absurd (ground (arith, missing))
      | inr (p, found) ↦ (
        (
          p,
          found,
          ground (arith, found, str_beq_iff p.challenge.attempt_id attempt),
          ground (arith, found, str_beq_iff p.challenge.request_id request),
          ground (arith, found),
          ground (arith, unexpired p found),
          ground (arith, found),
        ),
        ground (
          arith,
          found,
          str_beq_iff profile profile,
          lookup-remove profile profile (expire now_ms c).pending,
        ),
      )
    ]
  where
    unexpired :
        (p : Pending)
        → lookup profile (expire now_ms c).pending ≡ some p
        → ltb now_ms p.challenge.expires_at_ms ≡ true
    unexpired p found = lookup-retain_holds _ profile c.pending p found
