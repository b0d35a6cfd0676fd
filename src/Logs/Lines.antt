-- ===== src/Logs/Lines.antt =====
-- `LineDecoder` and `redact` of crates/manager-core/src/protocol.rs.
pub mod Chunks
pub mod Reference
use openfortivpn.Base.{
  refl, arith, ◌≡◌, some, none, true, false, [], ◌∷◌, inl, inr, Bool-cases, Option-cases,
  if◌then◌else◌, Bool, List, Option, ℕ, not, ◌==◌, ◌||◌, ◌&&◌, ltb, leb, max, is_some, length, ◌<◌,
  ◌≤◌, suc, any, all, ◌*◌, ◌++◌, nat_equality,
}
use openfortivpn.Base.Text.{Str, str_equality, str_beq_iff, lit, contains_str, to_lower}

abbrev pub max_line_bytes : ℕ
max_line_bytes = 64 * 1024

pub data Line : Type 0 where
  text : Str → Line
  oversized_line : Line
  invalid_utf8 : Line

pub record LineDecoder : Type 0 where
  pub bytes : List ℕ
  pub oversized : Bool

-- `LineDecoder::default`
abbrev pub new_decoder : LineDecoder
new_decoder = record { bytes = []; oversized = false }

-- Without a carriage return at the end.
unfoldable pub without_return : List ℕ → List ℕ
without_return [] = []
without_return (b ∷ []) = if b == 13 then [] else b ∷ []
without_return (b ∷ c ∷ bs) = b ∷ without_return (c ∷ bs)

abbrev pub line_of : Option Str → Line
line_of (some s) = text s
line_of none = invalid_utf8

module _ (from_utf8 : List ℕ → Option Str) where
  -- `finish`
  unfoldable pub finish : LineDecoder → Line × LineDecoder
  unfolding without_return
  finish d =
      if d.oversized
      then (oversized_line, record d { oversized = false })
      else (line_of (from_utf8 (without_return d.bytes)), record d { bytes = [] })

  -- What `feed` does with a byte that ends no line.
  unfoldable pub take_byte : ℕ → LineDecoder → LineDecoder
  take_byte byte d =
      if d.oversized
      then d
      else if length d.bytes == max_line_bytes
      then record { bytes = []; oversized = true }
      else record d { bytes = d.bytes ++ byte ∷ [] }

  -- `feed`
  unfoldable pub feed : List ℕ → LineDecoder → List Line × LineDecoder
  unfolding finish take_byte
  feed [] d = ([], d)
  feed (byte ∷ chunk) d =
      let (line, next) = finish d in
      let ended = feed chunk next in
      let taken = feed chunk (take_byte byte d) in
      if byte == 10 then (line ∷ ended.0, ended.1) else taken

  -- `eof`
  unfoldable pub eof : LineDecoder → Option Line × LineDecoder
  unfolding finish
  eof d =
      let (line, next) = finish d in
      if not (d.bytes == []) || d.oversized then (some line, next) else (none, d)

abbrev sensitive_words : List Str
sensitive_words =
    lit "password"
    ∷ lit "authorization"
    ∷ lit "bearer "
    ∷ lit "cookie"
    ∷ lit "otp="
    ∷ lit "otp ="
    ∷ lit "private key"
    ∷ lit "private-key"
    ∷ []

-- A line that names a secret.
unfoldable pub is_sensitive : Str → Bool
is_sensitive line = any (λ word. contains_str word (to_lower line)) sensitive_words

abbrev pub redacted : Str
redacted = lit "[sensitive engine output redacted]"

-- `redact`
unfoldable pub redact : Str → Str
unfolding is_sensitive
redact line = if is_sensitive line then redacted else line
