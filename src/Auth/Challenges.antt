-- ===== src/Auth/Challenges.antt =====
-- `Challenges` of crates/manager-core/src/control.rs.
pub mod Once
pub mod Answered
pub mod Bounds
use openfortivpn.Base.{
  refl, arith, ◌≡◌, some, none, true, false, [], ◌∷◌, inl, inr, Bool-cases, Option-cases,
  if◌then◌else◌, Bool, List, Option, ℕ, not, ◌==◌, ◌||◌, ◌&&◌, ltb, leb, max, is_some, length, ◌<◌,
  ◌≤◌, suc, any, all, map, is_some_and, ◌-◌, nat_equality,
}
use openfortivpn.Base.Error.{ok, err, Result, Result-cases, invalid_input, profile_busy}
use openfortivpn.Base.Text.{Str, str_equality, str_beq_iff, len}
use openfortivpn.Base.Dict.{Dict, retain, lookup, insert, values, remove}
use openfortivpn.Auth.Frame.{valid_attempt, valid_request, frame, auth_response}
use openfortivpn.Profile.Archive.{StrSet, contains}

pub record Challenge : Type 0 where
  pub profile_id : Str
  pub attempt_id : Str
  pub request_id : Str
  pub prompt : Str
  pub expires_at_ms : ℕ
  pub max_response_bytes : ℕ

pub record Pending : Type 0 where
  pub challenge : Challenge
  pub generation : ℕ

pub record Challenges : Type 0 where
  pub pending : Dict Pending
  pub seen : Dict StrSet

-- `Challenges::default`
abbrev pub no_challenges : Challenges
no_challenges = record { pending = []; seen = [] }

-- `expire`
unfoldable pub expire : ℕ → Challenges → Challenges
expire now_ms c = record c {
  pending = retain (λ (p : Pending). ltb now_ms p.challenge.expires_at_ms) c.pending;
}

unfoldable pub is_malformed : Challenge → ℕ → Bool
is_malformed challenge now_ms =
    not (valid_attempt challenge.attempt_id)
    || not (valid_request challenge.request_id)
    || challenge.profile_id == []
    || ltb 128 (len challenge.profile_id)
    || ltb 1024 (len challenge.prompt)
    || any (λ c. c == 0) challenge.prompt
    || challenge.max_response_bytes == 0
    || ltb 1024 challenge.max_response_bytes
    || leb challenge.expires_at_ms now_ms
    || ltb 120000 (challenge.expires_at_ms - now_ms)

-- `entry(attempt).or_default()`
abbrev pub seen_of : Str → Challenges → StrSet
seen_of attempt c = elim (lookup attempt c.seen) [ none ↦ [] | some ids ↦ ids ]

-- `register` after its call of `expire`.
unfoldable pub admit_challenge : Challenge → ℕ → ℕ → Challenges → Result (Unit {0}) × Challenges
unfolding is_malformed
admit_challenge challenge generation now_ms c =
    let known = is_some (lookup challenge.profile_id c.pending) in
    let attempted = is_some (lookup challenge.attempt_id c.seen) in
    let ids = seen_of challenge.attempt_id c in
    let full = record c { seen = insert challenge.attempt_id ids c.seen } in
    if is_malformed challenge now_ms
    then (err invalid_input, c)
    else if leb 512 (length c.pending) && not known
    then (err invalid_input, c)
    else if known
    then (err profile_busy, c)
    else if leb 512 (length c.seen) && not attempted
    then (err invalid_input, c)
    else if leb 32 (length ids) || contains challenge.request_id ids
    then (err invalid_input, full)
    else (
      ok tt,
      record {
        pending =
            insert challenge.profile_id (record { challenge = challenge; generation = generation })
              c.pending;
        seen = insert challenge.attempt_id (insert challenge.request_id tt ids) c.seen;
      },
    )

-- `register`
unfoldable pub register : Challenge → ℕ → ℕ → Challenges → Result (Unit {0}) × Challenges
register challenge generation now_ms c =
    admit_challenge challenge generation now_ms (expire now_ms c)

-- `list`
unfoldable pub list : ℕ → Challenges → List Challenge × Challenges
list now_ms c =
    let left = expire now_ms c in (map (λ (p : Pending). p.challenge) (values left.pending), left)

-- The response to a pending challenge, and whether it is used up.
unfoldable pub answer : (encode : Str → Str) → Pending → Str → ℕ → Str → Str → Result Str
answer encode p attempt generation request value =
    if not (p.generation == generation)
      || not (p.challenge.attempt_id == attempt)
      || not (p.challenge.request_id == request)
    then err invalid_input
    else if ltb p.challenge.max_response_bytes (len value)
    then err invalid_input
    else frame encode attempt request auth_response value

-- `respond`
unfoldable pub respond :
    (encode : Str → Str) → Str → Str → ℕ → Str → ℕ → Str → Challenges → Result Str × Challenges
unfolding answer
respond encode profile attempt generation request now_ms value c =
    let left = expire now_ms c in
    elim (lookup profile left.pending) [
      | none ↦ (err invalid_input, left)
      | some p ↦ elim (answer encode p attempt generation request value) [
        | err e ↦ (err e, left)
        | ok sent ↦ (ok sent, record left { pending = remove profile left.pending })
      ]
    ]

-- `close`
unfoldable pub close : Str → Str → Str → Challenges → Challenges
close profile attempt request c =
    if is_some_and (lookup profile c.pending)
      (λ (p : Pending). p.challenge.attempt_id == attempt && p.challenge.request_id == request)
    then record c { pending = remove profile c.pending }
    else c

-- `cancel_attempt`
unfoldable pub cancel_attempt : Str → Str → Challenges → Challenges
cancel_attempt profile attempt c =
    let pending =
      if is_some_and (lookup profile c.pending) (λ (p : Pending). p.challenge.attempt_id == attempt)
      then remove profile c.pending
      else c.pending in
    record { pending = pending; seen = remove attempt c.seen }
