-- ===== src/Auth/Saml/OneShot.antt =====
-- A callback binding yields one session at most, and only to its own callback.
use openfortivpn.Base.{
  refl, arith, ◌≡◌, true, [], ◌∷◌, inl, inr, Option-cases, Bool, List, ℕ, length, ◌<◌, ◌≤◌, ◌++◌,
}
use openfortivpn.Base.Error.{ok, err, Result, Result-cases}
use openfortivpn.Base.Text.{
  Str, str_equality, str_beq_iff, lit, split_once, strip_prefix, split_once_sound,
  strip_prefix_sound,
}
use openfortivpn.Auth.Saml.{CallbackBinding, accept_callback, token_of, cancel}

-- What reaches a binding.
pub record Callback : Type 0 where
  pub loopback : Bool
  pub method : Str
  pub target : Str
  pub active_attempt : Str
  pub active_generation : ℕ
  pub now_ms : ℕ

abbrev pub deliver : CallbackBinding → Callback → Result Str × CallbackBinding
deliver b k =
    accept_callback b k.loopback k.method k.target k.active_attempt k.active_generation k.now_ms

-- The sessions that a sequence of callbacks yields.
pub sessions : CallbackBinding → List Callback → List Str
sessions b [] = []
sessions b (k ∷ ks) =
    let rest = sessions (deliver b k).1 ks in
    elim (deliver b k).0 [ err e ↦ rest | ok token ↦ token ∷ rest ]

sessions_consumed :
    (b : CallbackBinding) (ks : List Callback) → b.consumed ≡ true → sessions b ks ≡ []
unfolding sessions accept_callback
sessions_consumed b [] h = refl
sessions_consumed b (k ∷ ks) h = ground (arith, sessions_consumed b ks h)

accept_consumes :
    (b : CallbackBinding) (k : Callback) (token : Str)
    → (deliver b k).0 ≡ ok token
    → (deliver b k).1.consumed ≡ true
unfolding accept_callback cancel
accept_consumes b k token h = ground arith

token_of_sound :
    (path target token : Str)
    → token_of path target ≡ ok token
    → target ≡ path ++ 63 ∷ (lit "id=" ++ token)
unfolding token_of
token_of_sound path target token h = elim (Option-cases (split_once 63 target)) [
  | inl missing ↦ absurd (ground (arith, missing))
  | inr ((before, query), halves) ↦ elim (Option-cases (strip_prefix (lit "id=") query)) [
    | inl missing ↦ absurd (ground (arith, halves, missing))
    | inr (t, stripped) ↦ ground (
      arith,
      halves,
      stripped,
      str_beq_iff before path,
      split_once_sound 63 target before query halves,
      strip_prefix_sound (lit "id=") query t stripped,
    )
  ]
]

-- Whatever callbacks reach a binding, in whatever order, it yields at most one session.
pub one_session : (b : CallbackBinding) (ks : List Callback) → length (sessions b ks) ≤ 1
unfolding sessions
one_session b [] = omega arith
one_session b (k ∷ ks) = elim (Result-cases (deliver b k).0) [
  | inr (e, refused) ↦ ground (arith, refused, one_session (deliver b k).1 ks)
  | inl (token, given) ↦
      ground (arith, given, sessions_consumed (deliver b k).1 ks (accept_consumes b k token given))
]

-- A session is yielded only for a callback from the loopback, before the deadline, by GET, for the
-- attempt and the generation of the binding, whose target is its path and the token.
pub accept_bound :
    (b : CallbackBinding) (k : Callback) (token : Str)
    → (deliver b k).0 ≡ ok token
    → (k.loopback ≡ true)
      × (k.now_ms < b.expires_at_ms)
      × (k.active_attempt ≡ b.attempt)
      × (k.active_generation ≡ b.generation)
      × (k.target ≡ b.path ++ 63 ∷ (lit "id=" ++ token))
unfolding accept_callback
accept_bound b k token h =
    ground (arith, token_of_sound b.path k.target token, str_beq_iff b.attempt k.active_attempt)
