-- ===== src/Auth/Broker/Worker.antt =====
-- What the worker of the listener answers.
use mathlib.Core.Path.{subst}
use openfortivpn.Base.{
  sym, ◌∙◌, ◌≡◌, refl, ◌<◌, ◌+◌, ℕ, zero, suc, true, false, List, ◌∷◌, ◌++◌, Option, none, some,
  arith, Bool-cases, inl, inr, ◌∙◌, ap,
}
use openfortivpn.Base.Text.{Str, str_equality, lit}
use openfortivpn.Base.Error.{ok, err, Result-cases, ErrorCode}
use openfortivpn.Auth.Saml.{CallbackBinding, accept_callback, cancel, token_of}
use openfortivpn.Auth.Saml.OneShot.{Callback, accept_bound}
use openfortivpn.Auth.Broker.{
  Arrival, Reading, Round, interrupted, failed, peer, stopped, received, target, session_of, serve,
  worker,
}

module _ (decode : List ℕ → Option Str) (authority attempt : Str) (generation : ℕ) where
  -- The round is a connection from the loopback whose request is for the callback of the binding
  -- with this token, in time.
  abbrev pub IsCallback : CallbackBinding → Str → Round → Type 0
  IsCallback b token r =
      (request : List ℕ) × (t : Str) × (r.arrival ≡ peer true)
      × (r.reading ≡ received (some request))
      × (r.late ≡ false)
      × (target decode request authority ≡ ok t)
      × (t ≡ b.path ++ 63 ∷ (lit "id=" ++ token))
      × (r.now_ms < b.expires_at_ms)
      × (attempt ≡ b.attempt)
      × (generation ≡ b.generation)

  session_of_sound :
      (b : CallbackBinding) (request : Option (List ℕ)) (now_ms : ℕ) (token : Str)
      → (session_of decode authority attempt generation b true request now_ms).0 ≡ ok token
      → (bytes : List ℕ) × (t : Str) × (request ≡ some bytes)
        × (target decode bytes authority ≡ ok t)
        × (t ≡ b.path ++ 63 ∷ (lit "id=" ++ token))
        × (now_ms < b.expires_at_ms)
        × (attempt ≡ b.attempt)
        × (generation ≡ b.generation)
  unfolding session_of
  session_of_sound b none now_ms token h = cc
  session_of_sound b (some bytes) now_ms token h =
      elim (Result-cases (target decode bytes authority)) [
        | inr (e, f) ↦ absurd (ground (arith, h, f))
        | inl (t, f) ↦
            let k : Callback = record {
              loopback = true;
              method = lit "GET";
              target = t;
              active_attempt = attempt;
              active_generation = generation;
              now_ms = now_ms;
            } in
            let s = accept_bound b k token (ground (arith, h, f)) in
            (bytes, t, refl, f, s.4, s.1, s.2, s.3)
      ]

  accept_kept :
      (b : CallbackBinding) (t : Str) (now_ms : ℕ) (e : ErrorCode)
      → (accept_callback b true (lit "GET") t attempt generation now_ms).0 ≡ err e
      → (accept_callback b true (lit "GET") t attempt generation now_ms).1 ≡ b
  unfolding accept_callback
  accept_kept b t now_ms e h = elim (Result-cases (token_of b.path t)) [
    | inr (c, f) ↦ ground (arith, h, f)
    | inl (token, f) ↦ ground (arith, h, f)
  ]

  session_of_kept :
      (b : CallbackBinding) (request : Option (List ℕ)) (now_ms : ℕ) (e : ErrorCode)
      → (session_of decode authority attempt generation b true request now_ms).0 ≡ err e
      → (session_of decode authority attempt generation b true request now_ms).1 ≡ b
  unfolding session_of
  session_of_kept b none now_ms e h = refl
  session_of_kept b (some bytes) now_ms e h = elim (Result-cases (target decode bytes authority)) [
    | inr (c, f) ↦ rw (f, session_of) refl
    | inl (t, f) ↦ rw (f, session_of) (accept_kept b t now_ms e (ground (arith, h, f)))
  ]

  -- A round before a given one is such a callback.
  abbrev Found : (ℕ → Round) → ℕ → CallbackBinding → Str → Type 0
  Found rounds n b token = (i : ℕ) × (i < n) × IsCallback b token (rounds i)

  at_round :
      (rounds : ℕ → Round) (left n : ℕ) (b : CallbackBinding) (token : Str)
      (request : Option (List ℕ))
      → (rounds n).arrival ≡ peer true
      → (rounds n).reading ≡ received request
      → (rounds n).late ≡ false
      → (session_of decode authority attempt generation b true request (rounds n).now_ms).0
        ≡ ok token
      → Found rounds (n + suc left) b token
  at_round rounds left n b token request a r l h =
      let (bytes, t, is, parsed, callback, timely, mine, current) =
        session_of_sound b request (rounds n).now_ms token h in
      (
        n,
        omega arith,
        (bytes, t, a, r ∙ ap received is, l, parsed, callback, timely, mine, current),
      )

  serve_reading :
      (rounds : ℕ → Round) (left n : ℕ) (b : CallbackBinding) (token : Str)
      → (rounds n).arrival ≡ peer true
      → ((c : CallbackBinding)
          → (serve decode authority attempt generation rounds left (n + 1) c).0 ≡ ok token
          → Found rounds (n + suc left) c token)
      → (reading : Reading) → (rounds n).reading ≡ reading
      → (serve decode authority attempt generation rounds (suc left) n b).0 ≡ ok token
      → Found rounds (n + suc left) b token
  unfolding serve
  serve_reading rounds left n b token a again stopped r h = absurd (ground (arith, h, a, r))
  serve_reading rounds left n b token a again (received request) r h =
      let s = session_of decode authority attempt generation b true request (rounds n).now_ms in
      elim (Bool-cases (rounds n).late) [
        | inl late ↦ absurd (ground (arith, h, a, r, late))
        | inr timely ↦ elim (Result-cases s.0) [
          | inl (t, f) ↦ at_round rounds left n b token request a r timely (
              let one : (serve decode authority attempt generation rounds (suc left) n b).0 ≡ ok t =
                rw (serve, a, r, timely, f) refl in
              f ∙ sym one ∙ h)
          | inr (e, f) ↦
              (let one : (serve decode authority attempt generation rounds (suc left) n b).0
                    ≡ (serve decode authority attempt generation rounds left (n + 1) s.1).0 =
                  rw (serve, a, r, timely, f) refl in
                subst (λ c. Found rounds (n + suc left) c token)
                  (session_of_kept b request (rounds n).now_ms e f) (again s.1 (sym one ∙ h)))
        ]
      ]

  serve_arrival :
      (rounds : ℕ → Round) (left n : ℕ) (b : CallbackBinding) (token : Str)
      → ((c : CallbackBinding)
          → (serve decode authority attempt generation rounds left (n + 1) c).0 ≡ ok token
          → Found rounds (n + suc left) c token)
      → (arrival : Arrival) → (rounds n).arrival ≡ arrival
      → (serve decode authority attempt generation rounds (suc left) n b).0 ≡ ok token
      → Found rounds (n + suc left) b token
  unfolding serve
  serve_arrival rounds left n b token again interrupted a h = absurd (ground (arith, h, a))
  serve_arrival rounds left n b token again failed a h = absurd (ground (arith, h, a))
  serve_arrival rounds left n b token again (peer false) a h = again b (ground (arith, h, a))
  serve_arrival rounds left n b token again (peer true) a h =
      serve_reading rounds left n b token a again (rounds n).reading refl h

  serve-Found :
      (rounds : ℕ → Round) (left n : ℕ) (b : CallbackBinding) (token : Str)
      → (serve decode authority attempt generation rounds left n b).0 ≡ ok token
      → Found rounds (n + left) b token
  unfolding serve
  serve-Found rounds zero n b token h = absurd (ground (arith, h))
  serve-Found rounds (suc left) n b token h =
      serve_arrival rounds left n b token
        (λ c k.
          let (i, less, found) = serve-Found rounds left (n + 1) c token k in
          (i, omega (arith, less), found))
        (rounds n).arrival refl h

  -- The worker yields a session only for one of its first 32 rounds, in which a peer on the loopback
  -- asks in time, for the attempt and the generation of the binding, for the binding's path with the
  -- token; and then the binding is used up.
  pub worker_bound :
      (rounds : ℕ → Round) (b : CallbackBinding) (token : Str)
      → (worker decode authority attempt generation rounds b).0 ≡ ok token
      → ((worker decode authority attempt generation rounds b).1.consumed ≡ true)
        × ((i : ℕ) × (i < 32) × IsCallback b token (rounds i))
  unfolding worker cancel
  worker_bound rounds b token h = (refl, serve-Found rounds 32 0 b token h)
