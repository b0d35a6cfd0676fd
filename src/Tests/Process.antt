-- ===== src/Tests/Process.antt =====
-- Reaping, response buffers and mailboxes.
use openfortivpn.Base.{
  ◌≡◌, refl, ◌<◌, ℕ, zero, suc, Bool, true, false, List, [], ◌∷◌, some, All, length, arith,
}
use openfortivpn.Base.Text.{str_equality}
use openfortivpn.Process.Reaper.{
  Inspection, exited, running, failed, reap_until_done, reap_ends, IsUnfinished, IsPause,
}
use openfortivpn.Process.Buffers.{
  Buffer, new_pool, Operation, encoding, dropping, operate_all, popped, IsClean, new_pool-IsClean,
}

-- It runs, an inspection fails, and it has exited with 7.
abbrev inspections : ℕ → Inspection ℕ
inspections zero = running
inspections (suc zero) = failed
inspections (suc (suc n)) = exited 7

inspections_run : (i : ℕ) → i < 2 → IsUnfinished (inspections i)
inspections_run zero h = tt
inspections_run (suc zero) h = tt
inspections_run (suc (suc i)) h = absurd (omega (arith, h))

reap_ends_example :
    ((reap_until_done inspections 3 0 0).0 ≡ some 7)
    × (length (reap_until_done inspections 3 0 0).1 ≡ 2)
    × All IsPause (reap_until_done inspections 3 0 0).1
reap_ends_example = reap_ends inspections 2 7 inspections_run refl

abbrev written : Buffer
written = record { bytes = 1 ∷ 2 ∷ []; capacity = 8 }

abbrev responses : List Operation
responses =
    encoding (λ b. (true, written)) ∷ dropping written ∷ encoding (λ b. (false, written)) ∷ []

new_pool-IsClean_example :
    IsClean (operate_all (new_pool 2 16) responses)
    × ((popped (operate_all (new_pool 2 16) responses)).bytes ≡ [])
new_pool-IsClean_example = new_pool-IsClean 2 16 responses

abbrev is_zero : ℕ → Bool
is_zero zero = true
is_zero (suc n) = false
