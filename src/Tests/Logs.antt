-- ===== src/Tests/Logs.antt =====
-- The log buffer and the line decoder at concrete inputs.
use openfortivpn.Base.{
  refl, arith, ◌≡◌, some, [], ◌∷◌, List, Option, ℕ, any, ◌==◌, ◌&&◌, leb, ◌-◌, map,
}
use openfortivpn.Base.Text.{Str, str_equality, lit, bytes}
use openfortivpn.Logs.Buffer.{LogEvent, new_buffer, push}
use openfortivpn.Logs.Buffer.Bounds.{IsWithin, total_bytes, push-IsWithin}
use openfortivpn.Logs.Lines.{new_decoder}
use openfortivpn.Logs.Lines.Reference.{
  feed_chunks, decoded, complete_lines, joined, feed_chunks-decoded,
}
use openfortivpn.Logs.Retention.{terminal_ids_to_keep}
use openfortivpn.Logs.Retention.Recent.{kept_exactly}

abbrev hello : LogEvent
hello = record {
  id = 1;
  instance_id = lit "i";
  stream = lit "stdout";
  line = lit "hello";
  timestamp = 5;
}

new_buffer-IsWithin : IsWithin 100 (new_buffer 2 1000)
unfolding new_buffer total_bytes
new_buffer-IsWithin = record { counted = refl; few = omega arith; small = omega arith }

push-IsWithin_example : IsWithin 100 (push 100 hello (new_buffer 2 1000))
push-IsWithin_example = push-IsWithin 100 hello (new_buffer 2 1000) new_buffer-IsWithin

abbrev as_text : List ℕ → Option Str
as_text bytes = some bytes

-- Two lines, cut in the middle of the first.
abbrev two_chunks : List (List ℕ)
two_chunks = (65 ∷ []) ∷ (66 ∷ 13 ∷ 10 ∷ 67 ∷ 10 ∷ []) ∷ []

feed_chunks-decoded_example :
    (feed_chunks as_text two_chunks new_decoder).0
    ≡ map (decoded as_text) (complete_lines [] (joined two_chunks))
feed_chunks-decoded_example = feed_chunks-decoded as_text two_chunks

abbrev ended : List (Str × ℕ)
ended = (lit "a", 5) ∷ (lit "b", 9) ∷ []

kept_exactly_example :
    any (λ i. i == lit "a") (terminal_ids_to_keep ended 10)
    ≡ any (λ (e : Str × ℕ). e.0 == lit "a" && leb (10 - 604800) e.1) ended
kept_exactly_example = kept_exactly ended 10 (lit "a") (omega arith)
