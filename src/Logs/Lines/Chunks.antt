-- ===== src/Logs/Lines/Chunks.antt =====
-- The lines of a stream do not depend on how it is cut into chunks.
use openfortivpn.Base.{
  refl, arith, ◌≡◌, true, [], ◌∷◌, inl, inr, Bool-cases, List, Option, ℕ, ◌==◌, length, ◌≤◌, ◌++◌,
  nat_equality, length-append_one,
}
use openfortivpn.Base.Text.{Str, str_equality}
use openfortivpn.Logs.Lines.{feed, LineDecoder, max_line_bytes, finish, take_byte}

module _ (from_utf8 : List ℕ → Option Str) where
  -- Feeding two chunks in turn yields the lines, and the state, of feeding them at once.
  pub feed-append :
      (a b : List ℕ) (d : LineDecoder)
      → feed from_utf8 (a ++ b) d ≡ (
        (feed from_utf8 a d).0 ++ (feed from_utf8 b (feed from_utf8 a d).1).0,
        (feed from_utf8 b (feed from_utf8 a d).1).1,
      )
  unfolding feed
  feed-append [] b d = refl
  feed-append (x ∷ a) b d = elim (Bool-cases (x == 10)) [
    | inl ends ↦ ground (arith, ends, feed-append a b (finish from_utf8 d).1)
    | inr goes_on ↦ ground (arith, goes_on, feed-append a b (take_byte from_utf8 x d))
  ]

  abbrev pub IsBounded : LineDecoder → Type 0
  IsBounded d = (length d.bytes ≤ max_line_bytes) × (d.oversized ≡ true → d.bytes ≡ [])

  finish-IsBounded : (d : LineDecoder) → IsBounded d → IsBounded (finish from_utf8 d).1
  unfolding finish
  finish-IsBounded d h = (ground arith, ground arith)

  take_byte-IsBounded :
      (x : ℕ) (d : LineDecoder) → IsBounded d → IsBounded (take_byte from_utf8 x d)
  unfolding take_byte
  take_byte-IsBounded x d h = (ground (arith, length-append_one d.bytes x), ground (arith, h))

  -- The decoder never keeps more than one line of 64 KiB, and keeps nothing of a line that is too
  -- long, whatever it is fed.
  pub feed-IsBounded :
      (chunk : List ℕ) (d : LineDecoder) → IsBounded d → IsBounded (feed from_utf8 chunk d).1
  unfolding feed
  feed-IsBounded [] d h = h
  feed-IsBounded (x ∷ chunk) d h = elim (Bool-cases (x == 10)) [
    | inl ends ↦ rw ends (feed-IsBounded chunk (finish from_utf8 d).1 (finish-IsBounded d h))
    | inr goes_on ↦
        rw goes_on (feed-IsBounded chunk (take_byte from_utf8 x d) (take_byte-IsBounded x d h))
  ]
