-- ===== src/Network/Cidr/Overlap.antt =====
-- Two canonical prefixes overlap exactly when they share an address.
use native.Mathlib.Nat.{
  div-div-eq-div-mul, mul-div-mul_right, pow-suc, one-le-pow, add-zero, add-suc, mul_comm,
}
use openfortivpn.Base.{
  ℕ, zero, suc, ◌+◌, ◌-◌, ◌*◌, ◌/◌, ◌^◌, ◌≤◌, ◌<◌, min, ◌≡◌, ap, ◌↔◌, inl, inr, true, arith, leb,
  Bool-cases,
}
use openfortivpn.Base.Text.{Str}
use openfortivpn.Base.Error.{ok, Result-cases}
use openfortivpn.Network.Cidr.{masked, prefix_overlaps, prefix, overlaps}
use openfortivpn.Network.Cidr.Canonical.{prefix_sound}

-- The address lies in the prefix.
abbrev pub Covers : ℕ × ℕ → ℕ → Type 0
Covers (a, bits) ip = masked ip bits ≡ a

pow_add : (j d : ℕ) → 2 ^ (j + d) ≡ 2 ^ d * 2 ^ j
pow_add j zero = rw add-zero (omega arith)
pow_add j (suc d) =
    rw (add-suc, pow-suc, pow-suc) (omega (arith, ap (λ (t : ℕ). t * 2) (pow_add j d)))

two_pow_pos : (j : ℕ) → 0 < 2 ^ j
two_pow_pos j = one-le-pow j 2 (omega arith)

clear_low : (x j d : ℕ) → x / 2 ^ j * 2 ^ j / 2 ^ (j + d) ≡ x / 2 ^ (j + d)
clear_low x j d =
    rw (pow_add, mul-div-mul_right (x / 2 ^ j) (2 ^ d) (two_pow_pos j), div-div-eq-div-mul)
      (ap (λ (t : ℕ). x / t) (mul_comm (2 ^ j) (2 ^ d)))

-- Fewer bits kept after more bits kept.
masked-masked : (x m n : ℕ) → m ≤ n → n ≤ 32 → masked (masked x n) m ≡ masked x m
unfolding masked
masked-masked x m n h k =
    let e : 32 - m ≡ (32 - n) + (n - m) = omega arith in
    ground (
      arith,
      ap (λ (t : ℕ). x / 2 ^ (32 - n) * 2 ^ (32 - n) / 2 ^ t) e,
      ap (λ (t : ℕ). x / 2 ^ t) e,
      clear_low x (32 - n) (n - m),
    )

-- The test that `overlaps` makes holds exactly when some address lies in both prefixes.
pub prefix_overlaps_iff :
    (a bits_a b bits_b : ℕ)
    → bits_a ≤ 32
    → bits_b ≤ 32
    → masked a bits_a ≡ a
    → masked b bits_b ≡ b
    → (prefix_overlaps (a, bits_a) (b, bits_b) ≡ true)
      ↔ ((ip : ℕ) × Covers (a, bits_a) ip × Covers (b, bits_b) ip)
unfolding prefix_overlaps
prefix_overlaps_iff a m b n hm hn ha hb = elim (Bool-cases (leb m n)) [
  | inl le ↦ (
    (λ h. (b, ground (arith, masked-masked b m n), hb)),
    (λ s. ground (arith, masked-masked s.0 m n, s.1, s.2)),
  )
  | inr ge ↦ (
    (λ h. (a, ha, ground (arith, masked-masked a n m))),
    (λ s. ground (arith, masked-masked s.0 n m, s.1, s.2)),
  )
]

-- Where both texts are canonical prefixes, `overlaps` answers true exactly when some address lies
-- in both of them.
pub overlaps_iff :
    (left right : Str) (p q : ℕ × ℕ)
    → prefix left ≡ ok p
    → prefix right ≡ ok q
    → (overlaps left right ≡ true) ↔ ((ip : ℕ) × Covers p ip × Covers q ip)
unfolding overlaps
overlaps_iff left right (a, bits_a) (b, bits_b) hp hq =
    let fa = prefix_sound left a bits_a hp in
    let fb = prefix_sound right b bits_b hq in
    rw (hp, hq, overlaps) (prefix_overlaps_iff a bits_a b bits_b fa.1 fb.1 fa.2 fb.2)

prefix_overlaps_comm : (p q : ℕ × ℕ) → prefix_overlaps p q ≡ prefix_overlaps q p
unfolding prefix_overlaps
prefix_overlaps_comm (a, m) (b, n) =
    let e : min m n ≡ min n m = omega arith in ground (arith, ap (masked a) e, ap (masked b) e)

pub overlaps_comm : (s t : Str) → overlaps s t ≡ overlaps t s
unfolding overlaps
overlaps_comm s t = elim (Result-cases (prefix s)) [
  | inl (p, e) ↦ elim (Result-cases (prefix t)) [
    | inl (q, f) ↦ ground (arith, prefix_overlaps_comm p q)
    | inr (x, f) ↦ ground arith
  ]
  | inr (x, e) ↦ ground arith
]
