-- ===== src/Engine/Retry.antt =====
-- `RetryTimer` and `retry_delay_seconds` of crates/manager-core/src/lifecycle.rs.
use native.Mathlib.Nat.{one-le-pow, pow-le-pow_right}
use openfortivpn.Base.{
  arith, ◌≡◌, some, none, true, false, [], ◌∷◌, if◌then◌else◌, ℕ, Bool, Option, ltb, leb, ◌==◌,
  nat_equality, not, ◌≤◌, saturating_add, List, ◌-◌, ◌||◌, ◌*◌, ◌^◌, ◌+◌, suc, ◌&&◌,
}

pub record RetryTimer : Type 0 where
  pub deadline : Option (ℕ × ℕ)

-- `RetryTimer::default`
abbrev pub new_timer : RetryTimer
new_timer = record { deadline = none }

-- `RetryTimer::schedule`
unfoldable pub schedule : RetryTimer → ℕ → ℕ → ℕ → RetryTimer
schedule t generation now_ms delay_ms = record {
  deadline = some (generation, saturating_add now_ms delay_ms);
}

-- `RetryTimer::cancel`
unfoldable pub cancel : RetryTimer → RetryTimer
cancel t = record { deadline = none }

-- `RetryTimer::take_due`
unfoldable pub take_due : RetryTimer → ℕ → ℕ → Bool × RetryTimer
take_due t generation now_ms = elim t.deadline [
  | none ↦ (false, t)
  | some (scheduled, deadline) ↦
      if not (scheduled == generation)
      then (false, cancel t)
      else if leb deadline now_ms
      then (true, cancel t)
      else (false, t)
]

-- `attempt.saturating_sub(1).min(4)`
unfoldable pub shift_of : ℕ → ℕ
shift_of attempt = if ltb 4 (attempt - 1) then 4 else attempt - 1

-- `retry_delay_seconds`
unfoldable pub retry_delay_seconds : ℕ → ℕ
retry_delay_seconds attempt =
    let delay = 3 * 2 ^ shift_of attempt in if ltb 30 delay then 30 else delay

-- What happens to a timer: a poll at a time, a new schedule, or a cancel.
pub data TimerOp : Type 0 where
  poll : ℕ → ℕ → TimerOp
  arm : ℕ → ℕ → ℕ → TimerOp
  drop : TimerOp

abbrev pub timer_step : RetryTimer → TimerOp → Bool × RetryTimer
timer_step t (poll generation now_ms) = take_due t generation now_ms
timer_step t (arm generation now_ms delay_ms) = (false, schedule t generation now_ms delay_ms)
timer_step t drop = (false, cancel t)

abbrev count_of : Bool → ℕ
count_of true = 1
count_of false = 0

-- How often the timer fires in a history.
pub fires : RetryTimer → List TimerOp → ℕ
fires t [] = 0
fires t (op ∷ ops) = count_of (timer_step t op).0 + fires (timer_step t op).1 ops

-- How often a history schedules a retry.
pub arms : List TimerOp → ℕ
arms [] = 0
arms (arm _ _ _ ∷ ops) = suc (arms ops)
arms (_ ∷ ops) = arms ops

abbrev armed : RetryTimer → ℕ
armed t = elim t.deadline [ none ↦ 0 | some _ ↦ 1 ]

poll_armed :
    (t : RetryTimer) (g now : ℕ)
    → count_of (take_due t g now).0 + armed (take_due t g now).1 ≤ armed t
unfolding take_due cancel
poll_armed t g now = ground arith

fires-armed : (t : RetryTimer) (ops : List TimerOp) → fires t ops ≤ arms ops + armed t
unfolding fires arms schedule cancel
fires-armed t [] = omega arith
fires-armed t (poll g now ∷ ops) =
    omega (arith, poll_armed t g now, fires-armed (take_due t g now).1 ops)
fires-armed t (arm g now d ∷ ops) = omega (arith, fires-armed (schedule t g now d) ops)
fires-armed t (drop ∷ ops) = omega (arith, fires-armed (cancel t) ops)

-- In no history of polls, schedules and cancels, from a new timer, does a retry fire more often
-- than one was scheduled.
pub fires_at_most_once_each : (ops : List TimerOp) → fires new_timer ops ≤ arms ops
fires_at_most_once_each ops = omega (arith, fires-armed new_timer ops)

-- A poll fires exactly at or after the deadline of the same generation, and leaves the timer
-- without a deadline.
pub take_due_iff :
    (generation now_ms delay_ms polled later : ℕ) (t : RetryTimer)
    → take_due (schedule t generation now_ms delay_ms) polled later ≡ (
      polled == generation && leb (saturating_add now_ms delay_ms) later,
      if not (polled == generation) || leb (saturating_add now_ms delay_ms) later
          then new_timer
          else schedule t generation now_ms delay_ms,
    )
unfolding take_due schedule cancel
take_due_iff g now d polled later t = ground arith

shift_of_mono : (a b : ℕ) → a ≤ b → shift_of a ≤ shift_of b
unfolding shift_of
shift_of_mono a b h = ground arith

two_pow_mono : (s u : ℕ) → s ≤ u → 2 ^ s ≤ 2 ^ u
two_pow_mono s u h = pow-le-pow_right (omega arith) h

-- The delay is between 3 and 30 seconds, and never shrinks from an attempt to a later one.
pub retry_delay_bounds :
    (attempt later : ℕ)
    → attempt ≤ later
    → (3 ≤ retry_delay_seconds attempt)
      × (retry_delay_seconds attempt ≤ retry_delay_seconds later)
      × (retry_delay_seconds later ≤ 30)
unfolding retry_delay_seconds
retry_delay_bounds a b h = ground (
  arith,
  one-le-pow (shift_of a) 2 (omega arith),
  two_pow_mono (shift_of a) (shift_of b) (shift_of_mono a b h),
)
