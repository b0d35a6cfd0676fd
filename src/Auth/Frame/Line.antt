-- ===== src/Auth/Frame/Line.antt =====
-- A frame is one line.
use openfortivpn.Auth.Frame.{network_result, valid_attempt, valid_request}
use openfortivpn.Base.{
  refl, arith, ◌≡◌, true, false, [], ◌∷◌, inl, inr, Bool-cases, ℕ, List, any, all, ◌++◌, ◌==◌, Bool,
  ◌||◌, ◌+◌, nat_equality,
}
use openfortivpn.Base.Text.{Str, bytes, utf8, is_lower_hexdigit, lit}
use openfortivpn.Auth.Frame.{
  all_from, Command, command_name, frame, auth_response, auth_cancel, lease_decision,
}
use openfortivpn.Base.Error.{ok}

abbrev is_newline : ℕ → Bool
is_newline c = c == 10

any-append_lem {ℓ} :
    {A : Type ℓ} (p : A → Bool) (xs ys : List A) → any p (xs ++ ys) ≡ (any p xs || any p ys)
any-append_lem p [] ys = refl
any-append_lem p (x ∷ xs) ys = ground (arith, any-append_lem p xs ys)

clean_append :
    (xs ys : Str)
    → any is_newline xs ≡ false
    → any is_newline ys ≡ false
    → any is_newline (xs ++ ys) ≡ false
clean_append xs ys hx hy = ground (arith, hx, hy, any-append_lem is_newline xs ys)

-- The newline is a byte of its own in UTF-8.
newline_byte : (s : Str) → any is_newline (bytes s) ≡ false → any is_newline s ≡ false
unfolding bytes utf8
newline_byte [] h = refl
newline_byte (c ∷ s) h = elim (Bool-cases (is_newline c)) [
  | inl is_it ↦ absurd (ground (arith, h, any-append_lem is_newline (utf8 c) (bytes s)))
  | inr other ↦ ground (arith, h, any-append_lem is_newline (utf8 c) (bytes s), newline_byte s)
]

all_from_newline : (i : ℕ) (bs : List ℕ) → all_from i bs ≡ true → any is_newline bs ≡ false
unfolding all_from
all_from_newline i [] h = refl
all_from_newline i (b ∷ bs) h = ground (arith, h, all_from_newline (i + 1) bs)

all_hexdigits_newline : (bs : List ℕ) → all is_lower_hexdigit bs ≡ true → any is_newline bs ≡ false
all_hexdigits_newline [] h = refl
all_hexdigits_newline (b ∷ bs) h = ground (arith, h, all_hexdigits_newline bs)

-- What `frame` sends, but for the newline at its end.
frame_body : (encode : Str → Str) → Str → Str → Command → Str → Str
frame_body encode attempt request command value =
    lit "OFV2 "
    ++ attempt
    ++ lit " "
    ++ request
    ++ lit " "
    ++ command_name command
    ++ lit " "
    ++ encode value

command_newline : (command : Command) → any is_newline (command_name command) ≡ false
unfolding lit
command_newline auth_response = refl
command_newline auth_cancel = refl
command_newline lease_decision = refl
command_newline network_result = refl

-- Where the encoder yields no newline, a frame is one line: whatever the value, its only newline is
-- the last character.
pub frame_one_line :
    (encode : Str → Str) (attempt request value sent : Str) (command : Command)
    → any is_newline (encode value) ≡ false
    → frame encode attempt request command value ≡ ok sent
    → (body : Str) × (sent ≡ body ++ lit "\n") × (any is_newline body ≡ false)
unfolding frame frame_body valid_attempt valid_request lit
frame_one_line encode attempt request value sent command clean done =
    let ha = newline_byte attempt (all_from_newline 0 (bytes attempt) (ground (arith, done))) in
    let hr = newline_byte request (all_hexdigits_newline (bytes request) (ground (arith, done))) in
    let bound = lit "OFV2 " ++ attempt in
    let asked = bound ++ lit " " ++ request in
    let name = asked ++ lit " " ++ command_name command in
    (
      frame_body encode attempt request command value,
      ground (arith, done),
      clean_append (name ++ lit " ") (encode value)
          (clean_append name (lit " ")
            (clean_append (asked ++ lit " ") (command_name command)
              (clean_append asked (lit " ")
                (clean_append (bound ++ lit " ") request
                  (clean_append bound (lit " ") (clean_append (lit "OFV2 ") attempt refl ha) refl)
                  hr)
                refl)
              (command_newline command))
            refl)
          clean,
    )
