-- ===== src/Auth/Broker/Request.antt =====
-- What a callback request carries, and that reading it ends.
use mathlib.Core.Path.{subst}
use openfortivpn.Base.{
  ap, sym, All, ◌≡◌, refl, ◌<◌, ◌+◌, ℕ, zero, suc, true, false, List, [], ◌∷◌, ◌++◌, Option, none,
  some, arith, length, is_some, if◌then◌else◌, Bool-cases, Option-cases, inl, inr, leb,
  length-append, All,
}
use openfortivpn.Base.Text.{Str, str_equality, lit, contains_str, str_beq, str_beq_iff, to_lower}
use openfortivpn.Base.Error.{Result, ok, err, Result-cases}
use openfortivpn.Auth.Broker.{
  header, with_header, check_headers, is_named, is_forbidden, read_request, blank_line,
}

-- The names of header lines that are well formed.
abbrev name_in : Result (Str × Str) → Str
name_in (ok h) = h.0
name_in (err e) = []

abbrev pub name_of : Str → Str
name_of line = name_in (header line)

-- How many lines are Host headers.
unfoldable pub host_count : List Str → ℕ
host_count [] = 0
host_count (line ∷ rest) = (if is_named (name_of line) (lit "host") then 1 else 0) + host_count rest

abbrev flag : Option Str → ℕ
flag none = 0
flag (some h) = 1

abbrev pub IsPlain : Str → Type 0
IsPlain line = is_forbidden (name_of line) ≡ false

with_header_sound :
    (host next : Option Str) (h : Str × Str)
    → with_header host h ≡ ok next
    → ((if is_named h.0 (lit "host") then 1 else 0) + flag host ≡ flag next)
      × ((is_named h.0 (lit "host") ≡ false) → is_forbidden h.0 ≡ false)
unfolding with_header
with_header_sound none next (name, value) e = (ground (arith, e), λ n. ground (arith, e, n))
with_header_sound (some x) next (name, value) e = (ground (arith, e), λ n. ground (arith, e, n))

check_headers_count :
    (host last : Option Str) (lines : List Str)
    → check_headers host lines ≡ ok last
    → (host_count lines + flag host ≡ flag last)
unfolding check_headers host_count
check_headers_count host last [] e = ground (arith, e)
check_headers_count host last (line ∷ rest) e = elim (Result-cases (header line)) [
  | inr (c, f) ↦ absurd (ground (arith, e, f))
  | inl (h, f) ↦ elim (Result-cases (with_header host h)) [
    | inr (c, g) ↦ absurd (ground (arith, e, f, g))
    | inl (next, g) ↦ ground (
      arith,
      f,
      with_header_sound host next h g,
      check_headers_count next last rest (ground (arith, e, f, g)),
    )
  ]
]

read_request_enough :
    (reads : ℕ → Option (List ℕ)) (fuel n : ℕ) (bytes : List ℕ)
    → 8192 < fuel + length bytes
    → 0 < fuel
    → is_some (read_request reads fuel n bytes) ≡ true
unfolding read_request
read_request_enough reads zero n bytes h k = absurd (omega (arith, k))
read_request_enough reads (suc fuel) n bytes h k = elim (Bool-cases (leb 8192 (length bytes))) [
  | inl full ↦ rw full refl
  | inr room ↦ elim (Option-cases (reads n)) [
    | inl f ↦ rw (room, f) refl
    | inr ([], f) ↦ rw (room, f) refl
    | inr (b ∷ chunk, f) ↦ elim (Bool-cases (contains_str (bytes ++ b ∷ chunk) blank_line)) [
      | inl found ↦ rw (room, f, found) refl
      | inr more ↦
          let less : length bytes < 8192 = ground (arith, room) in
          let grown = length-append bytes (b ∷ chunk) in
          rw (room, f, more)
            (read_request_enough reads fuel (n + 1) (bytes ++ b ∷ chunk) (omega (arith, h, grown))
              (omega (arith, h, less)))
    ]
  ]
]

-- Reading a request ends: whatever the stream answers, 8193 reads are enough, since every read that
-- does not end the loop adds a byte.
pub read_request_ends :
    (reads : ℕ → Option (List ℕ)) → is_some (read_request reads 8193 0 []) ≡ true
read_request_ends reads = read_request_enough reads 8193 0 [] (omega arith) (omega arith)

host_plain : (name : Str) → is_named name (lit "host") ≡ true → is_forbidden name ≡ false
unfolding is_forbidden is_named str_beq lit
host_plain name e = rw ((str_beq_iff (to_lower name) (lit "host")).0 e) refl

plain_of :
    (name : Str)
    → ((is_named name (lit "host") ≡ false) → is_forbidden name ≡ false)
    → is_forbidden name ≡ false
plain_of name k = elim (Bool-cases (is_named name (lit "host"))) [
  | inr n ↦ k n
  | inl n ↦ host_plain name n
]

check_headers-IsPlain :
    (host last : Option Str) (lines : List Str)
    → check_headers host lines ≡ ok last
    → All IsPlain lines
unfolding check_headers
check_headers-IsPlain host last [] e = tt
check_headers-IsPlain host last (line ∷ rest) e = elim (Result-cases (header line)) [
  | inr (c, f) ↦ absurd (ground (arith, e, f))
  | inl (h, f) ↦ elim (Result-cases (with_header host h)) [
    | inr (c, g) ↦ absurd (ground (arith, e, f, g))
    | inl (next, g) ↦ (
      subst (λ name. is_forbidden name ≡ false) (sym (ap name_in f))
          (plain_of h.0 (with_header_sound host next h g).1),
      check_headers-IsPlain next last rest (ground (arith, e, f, g)),
    )
  ]
]

-- The headers of a request that is accepted for an authority: exactly one is Host, and none of them
-- announces a body.
pub accepted_headers :
    (authority : Str) (lines : List Str)
    → check_headers none lines ≡ ok (some authority)
    → (host_count lines ≡ 1) × All IsPlain lines
accepted_headers authority lines h = (
  omega (arith, check_headers_count none (some authority) lines h),
  check_headers-IsPlain none (some authority) lines h,
)
