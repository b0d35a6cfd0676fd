-- ===== src/Logs/Lines/Reference.antt =====
-- The lines of a stream, without a state: it is cut after each line feed, and each line is decoded.
use openfortivpn.Base.{
  ◌≡◌, refl, ap, sym, ◌∙◌, arith, true, false, [], ◌∷◌, inl, inr, Bool-cases, List, Option, ℕ, ◌==◌,
  length, ◌++◌, ltb, nat_equality, length-append_one, if◌then◌else◌, map,
}
use openfortivpn.Base.Text.{Str, str_equality}
use openfortivpn.Logs.Lines.{
  feed, LineDecoder, max_line_bytes, finish, take_byte, new_decoder, Line, oversized_line, line_of,
  without_return,
}
use openfortivpn.Logs.Lines.Chunks.{feed-append}

-- The complete lines of the bytes, without their line feeds; `line` is the beginning of the first.
pub complete_lines : List ℕ → List ℕ → List (List ℕ)
complete_lines line [] = []
complete_lines line (byte ∷ bytes) =
    let rest = complete_lines [] bytes in
    if byte == 10 then line ∷ rest else complete_lines (line ++ byte ∷ []) bytes

-- What follows the last line feed.
pub unfinished : List ℕ → List ℕ → List ℕ
unfinished line [] = line
unfinished line (byte ∷ bytes) =
    let rest = unfinished [] bytes in
    if byte == 10 then rest else unfinished (line ++ byte ∷ []) bytes

-- A line of more than 64 KiB is not kept, and any other is decoded without a carriage return.
pub decoded : (List ℕ → Option Str) → List ℕ → Line
decoded from_utf8 line =
    if ltb max_line_bytes (length line)
    then oversized_line
    else line_of (from_utf8 (without_return line))

-- Chunks that are fed one after the other.
pub feed_chunks : (List ℕ → Option Str) → List (List ℕ) → LineDecoder → List Line × LineDecoder
feed_chunks from_utf8 [] d = ([], d)
feed_chunks from_utf8 (chunk ∷ chunks) d =
    let (lines, next) = feed from_utf8 chunk d in
    let (more, last) = feed_chunks from_utf8 chunks next in (lines ++ more, last)

pub joined : List (List ℕ) → List ℕ
joined [] = []
joined (chunk ∷ chunks) = chunk ++ joined chunks

-- The decoder in the middle of a line.
abbrev holding_line : List ℕ → LineDecoder
holding_line line =
    if ltb max_line_bytes (length line)
    then record { bytes = []; oversized = true }
    else record { bytes = line; oversized = false }

module _ (from_utf8 : List ℕ → Option Str) where
  take_byte-holding_line :
      (byte : ℕ) (line : List ℕ)
      → take_byte from_utf8 byte (holding_line line) ≡ holding_line (line ++ byte ∷ [])
  unfolding take_byte
  take_byte-holding_line byte line = ground (arith, length-append_one line byte)

  finish-holding_line :
      (line : List ℕ) → finish from_utf8 (holding_line line) ≡ (decoded from_utf8 line, new_decoder)
  unfolding finish decoded
  finish-holding_line line = ground arith

  feed-holding_line :
      (bytes line : List ℕ)
      → feed from_utf8 bytes (holding_line line) ≡ (
        map (decoded from_utf8) (complete_lines line bytes),
        holding_line (unfinished line bytes),
      )
  unfolding feed complete_lines unfinished
  feed-holding_line [] line = refl
  feed-holding_line (byte ∷ bytes) line = elim (Bool-cases (byte == 10)) [
    | inl ends ↦
        rw (ends, finish-holding_line line)
          (ap (λ (r : List Line × LineDecoder). (decoded from_utf8 line ∷ r.0, r.1))
            (feed-holding_line bytes []))
    | inr goes_on ↦
        rw (goes_on, take_byte-holding_line byte line) (feed-holding_line bytes (line ++ byte ∷ []))
  ]

  feed_chunks-joined :
      (chunks : List (List ℕ)) (d : LineDecoder)
      → feed_chunks from_utf8 chunks d ≡ feed from_utf8 (joined chunks) d
  unfolding feed_chunks joined feed
  feed_chunks-joined [] d = refl
  feed_chunks-joined (chunk ∷ chunks) d =
      rw (feed_chunks-joined chunks (feed from_utf8 chunk d).1)
        (sym (feed-append from_utf8 chunk (joined chunks) d))

  -- However a stream is cut into chunks, a new decoder answers with the complete lines of the
  -- stream, in order: each is decoded without its carriage return, or reported as oversized where it
  -- has more than 64 KiB.
  pub feed_chunks-decoded :
      (chunks : List (List ℕ))
      → (feed_chunks from_utf8 chunks new_decoder).0
        ≡ map (decoded from_utf8) (complete_lines [] (joined chunks))
  feed_chunks-decoded chunks =
      ap (λ (r : List Line × LineDecoder). r.0)
        (feed_chunks-joined chunks new_decoder ∙ feed-holding_line (joined chunks) [])
