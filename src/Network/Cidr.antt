-- ===== src/Network/Cidr.antt =====
-- Canonical IPv4 prefixes: `prefix` and `overlaps` of crates/manager-core/src/network.rs, over the
-- standard library's parsers and printers of `Ipv4Addr` and `u8`.
pub mod Canonical
pub mod Overlap
use openfortivpn.Base.{
  ℕ, ◌+◌, ◌-◌, ◌*◌, ◌/◌, ◌%◌, ◌^◌, min, ◌≡◌, refl, Bool, true, false, not, ◌&&◌, ◌||◌, List, [],
  ◌∷◌, ◌++◌, Option, none, some, ltb, leb, if◌then◌else◌, ◌==◌, all, length, nat_equality,
}
use openfortivpn.Base.Text.{str_beq, Str, is_digit, split_once, split, str_equality, lit}
use openfortivpn.Base.Error.{Result, ok, err, ErrorCode, invalid_input, ◌>>=◌}

-- The decimal value of digits.
abbrev pub value_from : ℕ → Str → ℕ
value_from acc [] = acc
value_from acc (c ∷ s) = value_from (acc * 10 + (c - b'0')) s

abbrev starts_zero : Str → Bool
starts_zero [] = false
starts_zero (c ∷ s) = c == b'0'

-- One octet of `Ipv4Addr::from_str`: one to three digits with no leading zero, at most 255.
unfoldable pub parse_octet : Str → Option ℕ
parse_octet s =
    if all is_digit s
      && leb 1 (length s)
      && leb (length s) 3
      && not (leb 2 (length s) && starts_zero s)
      && leb (value_from 0 s) 255
    then some (value_from 0 s)
    else none

abbrev four_octets : List (Option ℕ) → Option ℕ
four_octets (some a ∷ some b ∷ some c ∷ some d ∷ []) = some (a * 16777216 + b * 65536 + c * 256 + d)
four_octets _ = none

abbrev parse_octets : List Str → List (Option ℕ)
parse_octets [] = []
parse_octets (s ∷ ss) = parse_octet s ∷ parse_octets ss

-- `Ipv4Addr::from_str`
unfoldable pub parse_ipv4 : Str → Option ℕ
unfolding parse_octet
parse_ipv4 s = four_octets (parse_octets (split b'.' s))

abbrev pub unsigned : Str → Str
unsigned [] = []
unsigned (c ∷ s) = if c == b'+' then s else c ∷ s

-- `u8::from_str`: an optional plus sign, then at least one digit.
unfoldable pub parse_u8 : Str → Option ℕ
parse_u8 s =
    let digits = unsigned s in
    if leb 1 (length digits) && all is_digit digits && leb (value_from 0 digits) 255
    then some (value_from 0 digits)
    else none

-- `Display` of a `u8`
unfoldable pub show_u8 : ℕ → Str
show_u8 n =
    if ltb n 10
    then (b'0' + n) ∷ []
    else if ltb n 100
    then (b'0' + n / 10) ∷ (b'0' + n % 10) ∷ []
    else (b'0' + n / 100) ∷ (b'0' + n / 10 % 10) ∷ (b'0' + n % 10) ∷ []

-- `Display` of an `Ipv4Addr`
unfoldable pub show_ipv4 : ℕ → Str
show_ipv4 a =
    show_u8 (a / 16777216)
    ++ (b'.' ∷ show_u8 (a / 65536 % 256)
        ++ (b'.' ∷ show_u8 (a / 256 % 256) ++ (b'.' ∷ show_u8 (a % 256))))

-- `format!("{ip}/{bits}")`
unfoldable pub show_cidr : ℕ → ℕ → Str
show_cidr a bits = show_ipv4 a ++ (b'/' ∷ show_u8 bits)

-- `a & mask`, where the mask is 0 for no bits and `u32::MAX << (32 - bits)` for others: the
-- `32 - bits` low bits are cleared.
unfoldable pub masked : ℕ → ℕ → ℕ
masked a bits = if bits == 0 then 0 else a / 2 ^ (32 - bits) * 2 ^ (32 - bits)

-- What `prefix` does with a parsed address and length.
abbrev canonical : Str → ℕ → ℕ → Result (ℕ × ℕ)
canonical cidr address bits =
    if ltb 32 bits
    then err invalid_input
    else if not (masked address bits == address) || not (cidr == show_cidr address bits)
    then err invalid_input
    else ok (address, bits)

abbrev pub or_err {ℓ} : {A : Type ℓ} → Option A → ErrorCode → Result A
or_err none e = err e
or_err (some a) e = ok a

unfoldable pub prefix : Str → Result (ℕ × ℕ)
prefix cidr = do
  parts ← or_err (split_once b'/' cidr) invalid_input
  address ← or_err (parse_ipv4 parts.0) invalid_input
  bits ← or_err (parse_u8 parts.1) invalid_input
  canonical cidr address bits

-- The comparison of `overlaps`.
unfoldable pub prefix_overlaps : ℕ × ℕ → ℕ × ℕ → Bool
prefix_overlaps (a, bits_a) (b, bits_b) =
    let bits = min bits_a bits_b in masked a bits == masked b bits

-- `expect("validated lease")` panics where a destination does not parse. The model answers that
-- such destinations overlap; `overlaps_panics` tells the panic apart.
unfoldable pub overlaps : Str → Str → Bool
overlaps left right = elim (prefix left) [
  | ok p ↦ elim (prefix right) [ ok q ↦ prefix_overlaps p q | err _ ↦ true ]
  | err _ ↦ true
]

unfoldable pub overlaps_panics : Str → Str → Bool
overlaps_panics left right = elim (prefix left) [
  | ok p ↦ elim (prefix right) [ ok q ↦ false | err _ ↦ true ]
  | err _ ↦ true
]
