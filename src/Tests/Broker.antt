-- ===== src/Tests/Broker.antt =====
-- A callback of a browser.
use openfortivpn.Base.{
  ◌≡◌, refl, ◌<◌, ℕ, true, false, List, [], ◌∷◌, Option, none, some, is_some, option_beq,
}
use openfortivpn.Base.Text.{
  Str, str_equality, lit, bytes, str_beq, len, split_once, to_lower, is_whitespace, ends_with,
  split, strip_prefix,
}
use openfortivpn.Base.Error.{ok}
use openfortivpn.Auth.Saml.{CallbackBinding, accept_callback}
use openfortivpn.Auth.Broker.{Round, peer, received, worker, check_headers, read_request, trim}
use openfortivpn.Auth.Broker.Request.{read_request_ends}
use openfortivpn.Auth.Broker.Worker.{worker_bound, IsCallback}

abbrev header_lines : List Str
header_lines = lit "Host: h" ∷ lit "Accept: x" ∷ []

headers_accepted : check_headers none header_lines ≡ ok (some (lit "h"))
unfolding check_headers bytes lit split_once str_beq to_lower trim is_whitespace
headers_accepted = refl

read_request_ends_example : is_some (read_request (λ n. some (65 ∷ [])) 8193 0 []) ≡ true
read_request_ends_example = read_request_ends (λ n. some (65 ∷ []))

abbrev binding_a : CallbackBinding
binding_a = record {
  attempt = lit "a";
  generation = 1;
  path = lit "/p";
  expires_at_ms = 100;
  consumed = false;
}

-- The decoder of ASCII.
abbrev ascii : List ℕ → Option Str
ascii bytes = some bytes

abbrev callback_request : List ℕ
callback_request = lit "GET /p?id=t HTTP/1.1\r\nHost: h\r\n\r\n"

abbrev callbacks : ℕ → Round
callbacks n = record {
  arrival = peer true;
  reading = received (some callback_request);
  now_ms = 5;
  late = false;
}

worker_yields : (worker ascii (lit "h") (lit "a") 1 callbacks binding_a).0 ≡ ok (lit "t")
unfolding worker lit ends_with str_beq split len split_once to_lower option_beq trim is_whitespace
    accept_callback strip_prefix
worker_yields = refl

worker_bound_example :
    ((worker ascii (lit "h") (lit "a") 1 callbacks binding_a).1.consumed ≡ true)
    × ((i : ℕ) × (i < 32)
        × IsCallback ascii (lit "h") (lit "a") 1 binding_a (lit "t") (callbacks i))
worker_bound_example =
    worker_bound ascii (lit "h") (lit "a") 1 callbacks binding_a (lit "t") worker_yields
