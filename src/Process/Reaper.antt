-- ===== src/Process/Reaper.antt =====
-- `reap_until_done` of crates/manager-core/src/supervisor.rs. The answers of the inspections are an
-- argument, and the pauses that the loop makes are a result.
use native.Mathlib.Nat.{one-le-pow}
use openfortivpn.Base.{
  ap, ◌∙◌, ◌≡◌, refl, ◌≤◌, ◌<◌, ◌+◌, ◌*◌, ◌^◌, ℕ, zero, suc, min, List, [], ◌∷◌, Option, none, some,
  All, length, leb, if◌then◌else◌, u64_max, arith,
}

pub data Inspection {ℓ} (A : Type ℓ) : Type ℓ where
  exited : A → Inspection A
  running failed : Inspection A

-- u32::MAX
abbrev u32_max : ℕ
u32_max = 4294967295

-- `saturating_add(1)` on a u32
abbrev next_error : ℕ → ℕ
next_error errors = min (errors + 1) u32_max

-- `u64::saturating_mul`
unfoldable pub saturating_mul : ℕ → ℕ → ℕ
saturating_mul a b = if leb (a * b) u64_max then a * b else u64_max

-- The pause after a failed inspection, in milliseconds.
unfoldable pub failure_pause : ℕ → ℕ
unfolding saturating_mul
failure_pause errors = min (saturating_mul 50 (2 ^ min errors 5)) 1000

-- The loop, by the inspections that it may still make; `n` is the number of those made. Without an
-- end it answers nothing.
unfoldable pub reap_until_done {ℓ} :
    {A : Type ℓ} → (inspect : ℕ → Inspection A) → (fuel n errors : ℕ) → Option A × List ℕ
unfolding failure_pause
reap_until_done inspect zero n errors = (none, [])
reap_until_done inspect (suc fuel) n errors = elim (inspect n) [
  | exited status ↦ (some status, [])
  | running ↦ let (status, pauses) = reap_until_done inspect fuel (n + 1) 0 in (status, 10 ∷ pauses)
  | failed ↦
      let (status, pauses) = reap_until_done inspect fuel (n + 1) (next_error errors) in
      (status, failure_pause (next_error errors) ∷ pauses)
]

abbrev pub IsPause : ℕ → Type 0
IsPause ms = (10 ≤ ms) × (ms ≤ 1000)

abbrev pub IsUnfinished {ℓ} : {A : Type ℓ} → Inspection A → Type 0
IsUnfinished (exited status) = ⊥
IsUnfinished running = Unit
IsUnfinished failed = Unit

power_pos : (n : ℕ) → 1 ≤ 2 ^ n
power_pos n = one-le-pow n 2 (omega arith)

failure_pause-IsPause : (errors : ℕ) → IsPause (failure_pause errors)
unfolding failure_pause saturating_mul u64_max
failure_pause-IsPause errors = ground (arith, power_pos (min errors 5))

module _ {ℓ} {A : Type ℓ} (inspect : ℕ → Inspection A) where
  -- The loop has found the status after this many pauses.
  abbrev Ends : A → ℕ → Option A × List ℕ → Type ℓ
  Ends status rounds (found, pauses) =
      (found ≡ some status) × (length pauses ≡ rounds) × All IsPause pauses

  reap_round :
      (rounds n errors : ℕ) (status : A) (now : Inspection A)
      → inspect n ≡ now
      → IsUnfinished now
      → ((k : ℕ) → Ends status rounds (reap_until_done inspect (suc rounds) (n + 1) k))
      → Ends status (suc rounds) (reap_until_done inspect (suc (suc rounds)) n errors)
  unfolding reap_until_done
  reap_round rounds n errors status (exited a) e u later = absurd u
  reap_round rounds n errors status running e u later =
      let (found, long, paused) = later 0 in
      rw (reap_until_done, e) (found, omega (arith, long), ((omega arith, omega arith), paused))
  reap_round rounds n errors status failed e u later =
      let (found, long, paused) = later (next_error errors) in
      rw (reap_until_done, e)
        (found, omega (arith, long), (failure_pause-IsPause (next_error errors), paused))

  reap_from :
      (rounds n errors : ℕ) (status : A)
      → ((i : ℕ) → i < n + rounds → IsUnfinished (inspect i))
      → inspect (n + rounds) ≡ exited status
      → Ends status rounds (reap_until_done inspect (suc rounds) n errors)
  unfolding reap_until_done
  reap_from zero n errors status h e =
      let now : inspect n ≡ exited status = ap inspect (omega arith) ∙ e in
      rw (reap_until_done, now) (refl, refl, tt)
  reap_from (suc rounds) n errors status h e =
      reap_round rounds n errors status (inspect n) refl (h n (omega arith)) (λ k.
        reap_from rounds (n + 1) k status (λ i l. h i (omega (arith, l)))
          (ap inspect (omega arith) ∙ e))

-- The loop ends with the first status that an inspection answers, as soon as one does, however many
-- inspections have failed before; it pauses between any two inspections, from 10 to 1000 ms.
pub reap_ends {ℓ} :
    {A : Type ℓ} (inspect : ℕ → Inspection A) (n : ℕ) (status : A)
    → ((i : ℕ) → i < n → IsUnfinished (inspect i))
    → inspect n ≡ exited status
    → ((reap_until_done inspect (n + 1) 0 0).0 ≡ some status)
      × (length (reap_until_done inspect (n + 1) 0 0).1 ≡ n)
      × All IsPause (reap_until_done inspect (n + 1) 0 0).1
reap_ends inspect n status h e =
    let (found, long, paused) =
      reap_from inspect n 0 0 status (λ i l. h i (omega (arith, l)))
        (ap inspect (omega arith) ∙ e) in
    let fuel : n + 1 ≡ suc n = omega arith in rw fuel (found, long, paused)
