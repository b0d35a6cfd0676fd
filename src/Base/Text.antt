-- ===== src/Base/Text.antt =====
-- Rust's `String` and `&str` as their characters (Unicode scalar values), with the UTF-8 view that
-- `len` and `bytes` take.
use Prim.Native.Char.{code}
use Prim.Native.String.{String}
use openfortivpn.Base.{
  ℕ, ◌+◌, ◌/◌, ◌%◌, ◌≡◌, refl, ◌↔◌, Bool, true, false, ◌&&◌, ◌||◌, List, [], ◌∷◌, ◌++◌, map, Option,
  none, some, arith, ltb, leb, nat_beq, if◌then◌else◌, Equality, any, all, length, is_empty,
}

abbrev pub Str : Type 0
Str = List ℕ

-- A literal of the source.
unfoldable pub lit : String → Str
lit String.[] = []
lit (String.◌∷◌ c s) = code c ∷ lit s

unfoldable pub str_beq : Str → Str → Bool
str_beq [] [] = true
str_beq (a ∷ s) (b ∷ t) = nat_beq a b && str_beq s t
str_beq _ _ = false

pub str_beq_iff : (s t : Str) → (str_beq s t ≡ true) ↔ (s ≡ t)
unfolding str_beq
str_beq_iff [] [] = (λ h. refl, λ h. refl)
str_beq_iff [] (b ∷ t) = (λ h. cc, λ h. cc)
str_beq_iff (a ∷ s) [] = (λ h. cc, λ h. cc)
str_beq_iff (a ∷ s) (b ∷ t) =
    (λ h. ground (arith, (str_beq_iff s t).0), λ h. ground (arith, (str_beq_iff s t).1))

instance abbrev pub str_equality : Equality Str
str_equality = record { same = str_beq; beq_iff = str_beq_iff }

-- `char::encode_utf8`
unfoldable pub utf8 : ℕ → List ℕ
utf8 c =
    if ltb c 0x80
    then c ∷ []
    else if ltb c 0x800
    then (0xC0 + c / 64) ∷ (0x80 + c % 64) ∷ []
    else if ltb c 0x10000
    then (0xE0 + c / 4096) ∷ (0x80 + c / 64 % 64) ∷ (0x80 + c % 64) ∷ []
    else (0xF0 + c / 262144) ∷ (0x80 + c / 4096 % 64) ∷ (0x80 + c / 64 % 64) ∷ (0x80 + c % 64) ∷ []

-- `str::bytes`
unfoldable pub bytes : Str → List ℕ
unfolding utf8
bytes [] = []
bytes (c ∷ s) = utf8 c ++ bytes s

-- `str::len`, in bytes
unfoldable pub len : Str → ℕ
unfolding bytes
len s = length (bytes s)

-- `char::is_control`: the general category Cc.
unfoldable pub is_control : ℕ → Bool
is_control c = ltb c 32 || (leb 127 c && leb c 159)

-- `char::is_whitespace`: the property White_Space.
unfoldable pub is_whitespace : ℕ → Bool
is_whitespace c =
    (leb 9 c && leb c 13)
    || nat_beq c 32
    || nat_beq c 0x85
    || nat_beq c 0xA0
    || nat_beq c 0x1680
    || (leb 0x2000 c && leb c 0x200A)
    || nat_beq c 0x2028
    || nat_beq c 0x2029
    || nat_beq c 0x202F
    || nat_beq c 0x205F
    || nat_beq c 0x3000

-- `s.trim().is_empty()`
unfoldable pub is_blank : Str → Bool
unfolding is_whitespace
is_blank s = all is_whitespace s

abbrev pub is_digit : ℕ → Bool
is_digit c = leb b'0' c && leb c b'9'

abbrev pub is_lower : ℕ → Bool
is_lower c = leb b'a' c && leb c b'z'

abbrev pub is_upper : ℕ → Bool
is_upper c = leb b'A' c && leb c b'Z'

-- `u8::is_ascii_alphanumeric`
abbrev pub is_alphanumeric : ℕ → Bool
is_alphanumeric c = is_digit c || is_lower c || is_upper c

-- `u8::is_ascii_whitespace`: space, tab, line feed, form feed, carriage return
abbrev pub is_ascii_whitespace : ℕ → Bool
is_ascii_whitespace c = nat_beq c 32 || nat_beq c 9 || nat_beq c 10 || nat_beq c 12 || nat_beq c 13

-- `u8::is_ascii_hexdigit`
abbrev pub is_hexdigit : ℕ → Bool
is_hexdigit c = is_digit c || (leb b'a' c && leb c b'f') || (leb b'A' c && leb c b'F')

-- `matches!(c, b'a'..=b'f')` or a digit
abbrev pub is_lower_hexdigit : ℕ → Bool
is_lower_hexdigit c = is_digit c || (leb b'a' c && leb c b'f')

abbrev pub lower_char : ℕ → ℕ
lower_char c = if is_upper c then c + 32 else c

-- `str::to_ascii_lowercase`
unfoldable pub to_lower : Str → Str
to_lower s = map lower_char s

-- `str::starts_with`
unfoldable pub starts_with : Str → Str → Bool
starts_with s [] = true
starts_with [] (p ∷ ps) = false
starts_with (c ∷ s) (p ∷ ps) = nat_beq c p && starts_with s ps

-- `str::ends_with`: some tail of the text is the pattern
unfoldable pub ends_with : Str → Str → Bool
ends_with [] p = str_beq [] p
ends_with (c ∷ s) p = str_beq (c ∷ s) p || ends_with s p

-- `str::contains`
unfoldable pub contains_str : Str → Str → Bool
unfolding starts_with
contains_str [] p = is_empty p
contains_str (c ∷ s) p = starts_with (c ∷ s) p || contains_str s p

-- `str::split_once` at a character
unfoldable pub split_once : ℕ → Str → Option (Str × Str)
split_once d [] = none
split_once d (c ∷ s) =
    if nat_beq c d
    then some ([], s)
    else elim (split_once d s) [ none ↦ none | some (a, b) ↦ some (c ∷ a, b) ]

-- `str::strip_prefix`
unfoldable pub strip_prefix : Str → Str → Option Str
strip_prefix [] s = some s
strip_prefix (p ∷ ps) [] = none
strip_prefix (p ∷ ps) (c ∷ s) = if nat_beq c p then strip_prefix ps s else none

-- The first part and the others.
unfoldable pub split_parts : ℕ → Str → Str × List Str
split_parts d [] = ([], [])
split_parts d (c ∷ s) =
    let (first, rest) = split_parts d s in
    if nat_beq c d then ([], first ∷ rest) else (c ∷ first, rest)

-- `str::split` at a character
unfoldable pub split : ℕ → Str → List Str
unfolding split_parts
split d s = let (first, rest) = split_parts d s in first ∷ rest

-- The order of `String`, which is that of the characters.
unfoldable pub str_lt : Str → Str → Bool
str_lt s [] = false
str_lt [] (d ∷ t) = true
str_lt (c ∷ s) (d ∷ t) = ltb c d || (nat_beq c d && str_lt s t)

pub split_once-append :
    (d : ℕ) (s t : Str) → any (nat_beq d) s ≡ false → split_once d (s ++ d ∷ t) ≡ some (s, t)
unfolding split_once
split_once-append d [] t h = ground arith
split_once-append d (c ∷ s) t h = ground (arith, split_once-append d s t)

pub strip_prefix-append : (p s : Str) → strip_prefix p (p ++ s) ≡ some s
unfolding strip_prefix
strip_prefix-append [] s = refl
strip_prefix-append (c ∷ p) s = ground (arith, strip_prefix-append p s)

pub strip_prefix_sound : (p s r : Str) → strip_prefix p s ≡ some r → s ≡ p ++ r
unfolding strip_prefix
strip_prefix_sound [] s r h = ground arith
strip_prefix_sound (c ∷ p) [] r h = cc
strip_prefix_sound (c ∷ p) (d ∷ s) r h = ground (arith, strip_prefix_sound p s r)

pub split_once_sound : (d : ℕ) (s a b : Str) → split_once d s ≡ some (a, b) → s ≡ a ++ d ∷ b
unfolding split_once
split_once_sound d [] a b h = absurd (ground (arith, h))
split_once_sound d (c ∷ s) [] b h = ground (arith, h)
split_once_sound d (c ∷ s) (x ∷ a) b h = ground (arith, h, split_once_sound d s a b)
