-- ===== src/Network/Cidr/Canonical.antt =====
-- `prefix` accepts exactly the printed forms of aligned prefixes, and reads them back.
use native.Mathlib.Nat.{mod-eq_of_lt, mul_comm}
use native.Mathlib.Omega.{div_any}
use openfortivpn.Base.{
  Bool-cases, ◌+◌, ◌*◌, ◌==◌, ℕ, zero, suc, ◌/◌, ◌%◌, ◌≤◌, ◌<◌, ◌≡◌, ◌↔◌, ◌^◌, ◌-◌, refl, inl, inr,
  ap, Bool, true, false, not, ◌&&◌, ◌||◌, List, [], ◌∷◌, ◌++◌, Option, none, some, arith, any,
  nat_equality, Option-cases, nat_beq, nat_beq_iff,
}
use openfortivpn.Base.Text.{Str, split_once, split, str_equality, str_beq_iff, split_once-append}
use openfortivpn.Base.Error.{ok}
use openfortivpn.Network.Cidr.{
  parse_octet, parse_octets, four_octets, parse_ipv4, parse_u8, show_u8, show_ipv4, show_cidr,
  masked, prefix,
}

-- Over a small range, check every value by evaluation.
holds_to : (ℕ → Bool) → ℕ → Bool
holds_to test zero = true
holds_to test (suc last) = holds_to test last && test last

holds_to_at :
    (test : ℕ → Bool) (bound i : ℕ) → i < bound → holds_to test bound ≡ true → test i ≡ true
unfolding holds_to
holds_to_at test zero i below all_hold = absurd (omega arith)
holds_to_at test (suc last) i below all_hold = ground (arith, holds_to_at test last i)

abbrev is_value : ℕ → Option ℕ → Bool
is_value x none = false
is_value x (some y) = nat_beq y x

is_value_sound : (x : ℕ) (o : Option ℕ) → is_value x o ≡ true → o ≡ some x
is_value_sound x none h = cc
is_value_sound x (some y) h = ap some ((nat_beq_iff y x).0 h)

abbrev octet_ok : ℕ → Bool
octet_ok x =
    is_value x (parse_octet (show_u8 x))
    && is_value x (parse_u8 (show_u8 x))
    && not (any (nat_beq b'.') (show_u8 x))
    && not (any (nat_beq b'/') (show_u8 x))

octet_table : holds_to octet_ok 256 ≡ true
unfolding holds_to parse_octet parse_u8 show_u8
octet_table = refl

octet_facts :
    (x : ℕ)
    → x < 256
    → (parse_octet (show_u8 x) ≡ some x)
      × (parse_u8 (show_u8 x) ≡ some x)
      × (any (nat_beq b'.') (show_u8 x) ≡ false)
      × (any (nat_beq b'/') (show_u8 x) ≡ false)
octet_facts x h =
    let t : octet_ok x ≡ true = holds_to_at octet_ok 256 x h octet_table in
    ground
      (arith, is_value_sound x (parse_octet (show_u8 x)), is_value_sound x (parse_u8 (show_u8 x)))

-- A part with no separator is split off.
split-append :
    (d : ℕ) (s t : Str) → any (nat_beq d) s ≡ false → split d (s ++ d ∷ t) ≡ s ∷ split d t
unfolding split
split-append d [] t h = ground arith
split-append d (c ∷ s) t h = ground (arith, split-append d s t)

split_single : (d : ℕ) (s : Str) → any (nat_beq d) s ≡ false → split d s ≡ s ∷ []
unfolding split
split_single d [] h = refl
split_single d (c ∷ s) h = ground (arith, split_single d s)

any-append : (d : ℕ) (s t : Str) → any (nat_beq d) (s ++ t) ≡ any (nat_beq d) s || any (nat_beq d) t
any-append d [] t = refl
any-append d (c ∷ s) t = ground (arith, any-append d s t)

abbrev octets : ℕ → ℕ × ℕ × ℕ × ℕ
octets a = (a / 16777216, a / 65536 % 256, a / 256 % 256, a % 256)

parse_ipv4-show_ipv4 : (a : ℕ) → a < 4294967296 → parse_ipv4 (show_ipv4 a) ≡ some a
unfolding parse_ipv4 show_ipv4
parse_ipv4-show_ipv4 a h =
    let f0 = octet_facts (a / 16777216) (omega arith) in
    let f1 = octet_facts (a / 65536 % 256) (omega arith) in
    let f2 = octet_facts (a / 256 % 256) (omega arith) in
    let f3 = octet_facts (a % 256) (omega arith) in
    rw
      (
        split-append b'.' _ _ f0.2,
        split-append b'.' _ _ f1.2,
        split-append b'.' _ _ f2.2,
        split_single b'.' _ f3.2,
        f0.0,
        f1.0,
        f2.0,
        f3.0,
      )
      (ap some (omega arith))

show_ipv4_no_slash : (a : ℕ) → a < 4294967296 → any (nat_beq b'/') (show_ipv4 a) ≡ false
unfolding show_ipv4
show_ipv4_no_slash a h =
    let f0 = octet_facts (a / 16777216) (omega arith) in
    let f1 = octet_facts (a / 65536 % 256) (omega arith) in
    let f2 = octet_facts (a / 256 % 256) (omega arith) in
    let f3 = octet_facts (a % 256) (omega arith) in simp (any-append, f0.3, f1.3, f2.3, f3.3)

-- An aligned prefix, printed, is read back.
pub prefix-show_cidr :
    (a bits : ℕ)
    → a < 4294967296
    → bits ≤ 32
    → masked a bits ≡ a
    → prefix (show_cidr a bits) ≡ ok (a, bits)
unfolding prefix show_cidr
prefix-show_cidr a bits ha hb aligned =
    rw
      (
        split_once-append b'/' (show_ipv4 a) (show_u8 bits) (show_ipv4_no_slash a ha),
        parse_ipv4-show_ipv4 a ha,
        (octet_facts bits (omega arith)).1,
      )
      (ground (arith, str_beq_iff (show_cidr a bits) (show_cidr a bits)))

parse_octet_bound : (s : Str) (x : ℕ) → parse_octet s ≡ some x → x ≤ 255
unfolding parse_octet
parse_octet_bound s x h = ground arith

four_octets_bound :
    (o0 o1 o2 o3 : Option ℕ) (a : ℕ)
    → ((x : ℕ) → o0 ≡ some x → x ≤ 255)
    → ((x : ℕ) → o1 ≡ some x → x ≤ 255)
    → ((x : ℕ) → o2 ≡ some x → x ≤ 255)
    → ((x : ℕ) → o3 ≡ some x → x ≤ 255)
    → four_octets (o0 ∷ o1 ∷ o2 ∷ o3 ∷ []) ≡ some a
    → a < 4294967296
four_octets_bound (some x0) (some x1) (some x2) (some x3) a h0 h1 h2 h3 h =
    ground (arith, h0 x0, h1 x1, h2 x2, h3 x3)
four_octets_bound _ _ _ _ a h0 h1 h2 h3 h = cc

four_parts_bound : (ss : List Str) (a : ℕ) → four_octets (parse_octets ss) ≡ some a → a < 4294967296
four_parts_bound (s0 ∷ s1 ∷ s2 ∷ s3 ∷ []) a h =
    four_octets_bound (parse_octet s0) (parse_octet s1) (parse_octet s2) (parse_octet s3) a
      (parse_octet_bound s0) (parse_octet_bound s1) (parse_octet_bound s2) (parse_octet_bound s3) h
four_parts_bound _ a h = ground arith

parse_ipv4_bound : (s : Str) (a : ℕ) → parse_ipv4 s ≡ some a → a < 4294967296
unfolding parse_ipv4
parse_ipv4_bound s a h = four_parts_bound (split b'.' s) a h

-- What is accepted is the printed form of an aligned prefix.
pub prefix_sound :
    (cidr : Str) (a bits : ℕ)
    → prefix cidr ≡ ok (a, bits)
    → (a < 4294967296) × (bits ≤ 32) × (masked a bits ≡ a) × (cidr ≡ show_cidr a bits)
unfolding prefix
prefix_sound cidr a bits h = elim (Option-cases (split_once b'/' cidr)) [
  | inl missing ↦ ground arith
  | inr (parts, e) ↦ elim (Option-cases (parse_ipv4 parts.0)) [
    | inl bad ↦ ground arith
    | inr (address, ea) ↦
        ground (arith, parse_ipv4_bound parts.0 address ea, str_beq_iff cidr (show_cidr a bits))
  ]
]

-- No address bits below the prefix.
abbrev pub IsAligned : ℕ → ℕ → Type 0
IsAligned a bits = a % 2 ^ (32 - bits) ≡ 0

masked_iff : (a bits : ℕ) → a < 4294967296 → (masked a bits ≡ a) ↔ IsAligned a bits
unfolding masked
masked_iff a bits below = elim (Bool-cases (bits == 0)) [
  | inl none_kept ↦
      (λ h. ground (arith, none_kept, h), λ h. ground (arith, none_kept, h, mod-eq_of_lt below))
  | inr some_kept ↦
      (λ h. ground (arith, some_kept, h, parts), λ h. ground (arith, some_kept, h, parts))
]
  where
    parts : a / 2 ^ (32 - bits) * 2 ^ (32 - bits) + a % 2 ^ (32 - bits) ≡ a
    parts = rw (mul_comm (a / 2 ^ (32 - bits)) (2 ^ (32 - bits))) (div_any a (2 ^ (32 - bits)))

-- `prefix` reads exactly the printed forms of prefixes with at most 32 bits and no host bits, and
-- the address and length that it reads are those that were printed.
pub prefix_iff :
    (cidr : Str) (a bits : ℕ)
    → (prefix cidr ≡ ok (a, bits))
      ↔ ((a < 4294967296) × (bits ≤ 32) × IsAligned a bits × (cidr ≡ show_cidr a bits))
prefix_iff cidr a bits = (
  λ h.
      let (below, few, aligned, printed) = prefix_sound cidr a bits h in
      (below, few, (masked_iff a bits below).0 aligned, printed),
  λ h.
      let (below, few, aligned, printed) = h in
      rw printed (prefix-show_cidr a bits below few ((masked_iff a bits below).1 aligned)),
)
