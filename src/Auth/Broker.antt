-- ===== src/Auth/Broker.antt =====
-- The loopback listener for one callback: crates/manager-core/src/saml_broker.rs. What a round of
-- its worker meets (connections, cancellations, timers, the clock) is an argument.
pub mod Request
pub mod Worker
use openfortivpn.Base.{
  ℕ, zero, suc, ◌+◌, ◌-◌, Bool, true, false, not, ◌&&◌, ◌||◌, List, [], ◌∷◌, ◌++◌, Option, none,
  some, ltb, leb, ◌==◌, nat_equality, length, take, any, all, is_empty, is_some, if◌then◌else◌,
  reverse, option_equality,
}
use openfortivpn.Base.Text.{
  Str, str_equality, lit, len, bytes, split, split_once, ends_with, contains_str, is_alphanumeric,
  is_whitespace, to_lower,
}
use openfortivpn.Base.Error.{Result, ok, err, invalid_input, reject_if, ◌>>=◌, ◌>>◌}
use openfortivpn.Network.Cidr.{or_err}
use openfortivpn.Auth.Saml.{CallbackBinding, accept_callback, cancel}

-- The end of a header block.
abbrev pub blank_line : List ℕ
blank_line = 13 ∷ 10 ∷ 13 ∷ 10 ∷ []

abbrev prepend : ℕ → Str × List Str → Str × List Str
prepend c (first, rest) = (c ∷ first, rest)

abbrev begin_line : Str × List Str → Str × List Str
begin_line (first, rest) = ([], first ∷ rest)

-- The first part and the others; the flag says that a carriage return is pending.
unfoldable pub line_parts : Bool → Str → Str × List Str
line_parts false [] = ([], [])
line_parts true [] = (13 ∷ [], [])
line_parts false (c ∷ s) = elim (c == 13) [
  | true ↦ line_parts true s
  | false ↦ prepend c (line_parts false s)
]
line_parts true (c ∷ s) = elim (c == 10) [
  | true ↦ begin_line (line_parts false s)
  | false ↦ elim (c == 13) [
    | true ↦ prepend 13 (line_parts true s)
    | false ↦ prepend 13 (prepend c (line_parts false s))
  ]
]

-- `split("\r\n")`
unfoldable pub lines : Str → List Str
unfolding line_parts
lines s = let (first, rest) = line_parts false s in first ∷ rest

unfoldable pub trim_start : Str → Str
trim_start [] = []
trim_start (c ∷ s) = elim (is_whitespace c) [ true ↦ trim_start s | false ↦ c ∷ s ]

-- `str::trim`
unfoldable pub trim : Str → Str
unfolding trim_start
trim s = reverse (trim_start (reverse (trim_start s)))

abbrev is_bad_byte : ℕ → Bool
is_bad_byte b = ltb b 32 || b == 127

abbrev is_name_byte : ℕ → Bool
is_name_byte b = is_alphanumeric b || b == b'-'

-- The name and the value of a header line.
unfoldable pub header : Str → Result (Str × Str)
header line = do
  reject_if (any is_bad_byte (bytes line)) invalid_input
  halves ← or_err (split_once b':' line) invalid_input
  reject_if (is_empty halves.0 || not (all is_name_byte (bytes halves.0))) invalid_input
  ok halves

-- `eq_ignore_ascii_case` with a name in lower case
unfoldable pub is_named : Str → Str → Bool
is_named name expected = to_lower name == expected

-- The headers that a callback may not have.
unfoldable pub is_forbidden : Str → Bool
unfolding is_named
is_forbidden name =
    is_named name (lit "content-length")
    || is_named name (lit "transfer-encoding")
    || is_named name (lit "expect")

unfoldable pub with_header : Option Str → Str × Str → Result (Option Str)
unfolding is_named is_forbidden
with_header host (name, value) =
    if is_named name (lit "host")
    then (if is_some host then err invalid_input else ok (some (trim value)))
    else if is_forbidden name
    then err invalid_input
    else ok host

-- The loop over the headers; the result is the host.
unfoldable pub check_headers : Option Str → List Str → Result (Option Str)
unfolding header with_header
check_headers host [] = ok host
check_headers host (line ∷ rest) =
    header line >>= λ h. with_header host h >>= λ next. check_headers next rest

-- The request line: the method, the target and the version.
unfoldable pub request_target : List Str → Result Str
request_target (method ∷ target ∷ version ∷ []) =
    if method == lit "GET"
      && not (ltb 1024 (len target))
      && (version == lit "HTTP/1.0" || version == lit "HTTP/1.1")
    then ok target
    else err invalid_input
request_target _ = err invalid_input

-- What `target` does with the lines of a request.
unfoldable pub target_of_lines : Str → List Str → Result Str
unfolding request_target check_headers
target_of_lines authority [] = err invalid_input
target_of_lines authority (first ∷ headers) = do
  t ← request_target (split b' ' first)
  host ← check_headers none headers
  reject_if (not (host == some authority)) invalid_input
  ok t

-- `target`, where `decode` is the UTF-8 decoder; the four bytes at the end are four characters.
unfoldable pub target : (decode : List ℕ → Option Str) → List ℕ → Str → Result Str
unfolding target_of_lines lines
target decode request authority = do
  reject_if (ltb 8192 (length request) || not (ends_with request blank_line)) invalid_input
  text ← or_err (decode request) invalid_input
  target_of_lines authority (lines (take (length text - 4) text))

-- The loop of `request`, on what the reads of the stream answer: nothing for an error, an empty
-- chunk at the end. The fuel is the number of reads; no result says that it was too small.
unfoldable pub read_request :
    (reads : ℕ → Option (List ℕ)) → ℕ → ℕ → List ℕ → Option (Result (List ℕ))
read_request reads zero n bytes = none
read_request reads (suc fuel) n bytes =
    let rest = λ (more : List ℕ). read_request reads fuel (n + 1) more in
    if leb 8192 (length bytes) then some (err invalid_input) else elim (reads n) [
      | none ↦ some (err invalid_input)
      | some [] ↦ some (err invalid_input)
      | some (b ∷ chunk) ↦
          if contains_str (bytes ++ b ∷ chunk) blank_line
          then some (ok (bytes ++ b ∷ chunk))
          else rest (bytes ++ b ∷ chunk)
    ]

-- What `accept` of the listener meets: a cancellation or the deadline, a failure, or a peer.
pub data Arrival : Type 0 where
  interrupted failed : Arrival
  peer : (loopback : Bool) → Arrival

-- What reading the request meets: a cancellation or the deadline, or an answer within its time.
pub data Reading : Type 0 where
  stopped : Reading
  received : Option (List ℕ) → Reading

pub record Round : Type 0 where
  pub arrival : Arrival
  pub reading : Reading
  pub now_ms : ℕ
  -- Cancelled or past the deadline after the reply.
  pub late : Bool

module _ (decode : List ℕ → Option Str) (authority attempt : Str) (generation : ℕ) where
  -- The session of a request, and the binding after it.
  unfoldable pub session_of :
      CallbackBinding → Bool → Option (List ℕ) → ℕ → Result Str × CallbackBinding
  unfolding target
  session_of b loopback none now_ms = (err invalid_input, b)
  session_of b loopback (some request) now_ms = elim (target decode request authority) [
    | err e ↦ (err e, b)
    | ok t ↦ accept_callback b loopback (lit "GET") t attempt generation now_ms
  ]

  -- The loop of the worker.
  unfoldable pub serve :
      (rounds : ℕ → Round) → (left n : ℕ) → CallbackBinding → Result Str × CallbackBinding
  unfolding session_of
  serve rounds zero n b = (err invalid_input, b)
  serve rounds (suc left) n b =
      let again = λ (c : CallbackBinding). serve rounds left (n + 1) c in
      elim (rounds n).arrival [
        | interrupted ↦ (err invalid_input, b)
        | failed ↦ (err invalid_input, b)
        | peer false ↦ again b
        | peer true ↦ elim (rounds n).reading [
          | stopped ↦ (err invalid_input, b)
          | received request ↦
              let (session, c) = session_of b true request (rounds n).now_ms in
              if (rounds n).late
              then (err invalid_input, c)
              else elim session [ ok token ↦ (ok token, c) | err e ↦ again c ]
        ]
      ]

  -- The worker of `start`: 32 rounds at most, then the binding is cancelled.
  unfoldable pub worker : (rounds : ℕ → Round) → CallbackBinding → Result Str × CallbackBinding
  unfolding serve cancel
  worker rounds b = let (outcome, c) = serve rounds 32 0 b in (outcome, cancel c)
