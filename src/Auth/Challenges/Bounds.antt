-- ===== src/Auth/Challenges/Bounds.antt =====
-- The capacity of the challenges.
use openfortivpn.Base.{arith, ◌≤◌, length, ℕ, ltb}
use openfortivpn.Base.Text.{Str}
use openfortivpn.Auth.Challenges.{
  Challenges, expire, admit_challenge, seen_of, Challenge, register, Pending, list, respond, close,
  cancel_attempt,
}
use openfortivpn.Auth.Challenges.Once.{
  op_step, Op, registered, listed, responded, closed, cancelled,
}
use openfortivpn.Base.Dict.{
  length-retain-le, length-insert, lookup-insert, insert, length-remove-le, lookup-remove,
}

-- At most 512 challenges wait, and at most 32 requests of an attempt are remembered.
pub record IsWithinCapacity (c : Challenges) : Type 0 where
  pub few_pending : length c.pending ≤ 512
  pub few_requests : (attempt : Str) → length (seen_of attempt c) ≤ 32

expire-IsWithinCapacity :
    (now_ms : ℕ) (c : Challenges) → IsWithinCapacity c → IsWithinCapacity (expire now_ms c)
unfolding expire
expire-IsWithinCapacity now_ms c h = record {
  few_pending = omega (
    arith,
    h.few_pending,
    length-retain-le (λ (p : Pending). ltb now_ms p.challenge.expires_at_ms) c.pending,
  );
  few_requests = λ attempt. h.few_requests attempt;
}

admit-IsWithinCapacity :
    (challenge : Challenge) (generation now_ms : ℕ) (c : Challenges)
    → IsWithinCapacity c
    → IsWithinCapacity (admit_challenge challenge generation now_ms c).1
unfolding admit_challenge
admit-IsWithinCapacity challenge generation now_ms c h =
    let ids = seen_of challenge.attempt_id c in
    let p : Pending = record { challenge = challenge; generation = generation } in
    record {
      few_pending = ground (arith, h.few_pending, length-insert challenge.profile_id p c.pending);
      few_requests = λ attempt. ground (
        arith,
        h.few_requests attempt,
        h.few_requests challenge.attempt_id,
        lookup-insert challenge.attempt_id attempt ids c.seen,
        lookup-insert challenge.attempt_id attempt (insert challenge.request_id tt ids) c.seen,
        length-insert challenge.request_id tt ids,
      );
    }

-- Every operation keeps to the capacity: at most 512 challenges wait, and at most 32 requests of an
-- attempt are remembered.
pub op_step-IsWithinCapacity :
    (encode : Str → Str) (c : Challenges) (op : Op)
    → IsWithinCapacity c
    → IsWithinCapacity (op_step encode c op)
unfolding op_step register list respond close cancel_attempt
op_step-IsWithinCapacity encode c (registered challenge generation now_ms) h =
    admit-IsWithinCapacity challenge generation now_ms (expire now_ms c)
      (expire-IsWithinCapacity now_ms c h)
op_step-IsWithinCapacity encode c (listed now_ms) h = expire-IsWithinCapacity now_ms c h
op_step-IsWithinCapacity encode c (responded profile a g r now_ms v) h =
    let e = expire-IsWithinCapacity now_ms c h in
    record {
      few_pending =
          ground (arith, e.few_pending, length-remove-le profile (expire now_ms c).pending);
      few_requests = λ attempt. ground (arith, e.few_requests attempt);
    }
op_step-IsWithinCapacity encode c (closed profile a r) h = record {
  few_pending = ground (arith, h.few_pending, length-remove-le profile c.pending);
  few_requests = λ attempt. ground (arith, h.few_requests attempt);
}
op_step-IsWithinCapacity encode c (cancelled profile a) h = record {
  few_pending = ground (arith, h.few_pending, length-remove-le profile c.pending);
  few_requests = λ attempt. ground (arith, h.few_requests attempt, lookup-remove a attempt c.seen);
}
