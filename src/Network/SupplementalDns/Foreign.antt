-- ===== src/Network/SupplementalDns/Foreign.antt =====
-- The supplemental DNS backend and the values of others.
use mathlib.Core.Path.{subst}
use openfortivpn.Base.{
  ◌≡◌, ◌⊎◌, refl, sym, ℕ, Bool, true, false, not, ◌||◌, inl, inr, Option, none, some, is_some,
  arith, ◌==◌, Bool-cases, nat_equality, if◌then◌else◌,
}
use openfortivpn.Base.Text.{Str, str_equality, str_beq_iff}
use openfortivpn.Base.Dict.{Dict}
use openfortivpn.Base.Error.{Result, ok, ErrorCode, recovery_required, network_conflict}
use openfortivpn.Base.Action.{
  Action, answer, refuse_if, Ensures, Ensures-bind, Ensures-done, Ensures-refuse, Ensures-refuse_if,
}
use openfortivpn.Network.Model.{Resource, Dns}
use openfortivpn.Network.SupplementalDns.{
  CfValue, cf_dictionary, DynamicStore, dictionary, equals, identity, dns_key,
}
use openfortivpn.Network.SupplementalDns.Calls.{
  copied, value, checked, bound, inspected, inspect, confirmed, apply, withdraw, remove,
  supplemental_dns,
}

-- The copy answers with nothing, and the last error is not that of a missing key.
abbrev pub FailsToCopy : {W : Type 0} → DynamicStore W → Option CfValue × W → Type 0
FailsToCopy store (v, w) = (v ≡ none) × ((store.last_error w == 1004) ≡ false)

-- What the backend relies on: `holds k v w` says that the store holds `v` under `k`. A copy of a
-- value that is held answers with it or fails, with an error that is not that of a missing key; a
-- copy lets the value be, and a write changes its own key only.
pub record IsLawful {W : Type 0} (store : DynamicStore W) (holds : Str → CfValue → W → Type 0)
    : Type 0 where
  pub copying :
      (k : Str) (v : CfValue) (w : W)
      → holds k v w
      → ((store.copy_value k w).0 ≡ some v) ⊎ FailsToCopy store (store.copy_value k w)
  pub copy_keeps :
      (i k : Str) (v : CfValue) (w : W) → holds k v w → holds k v (store.copy_value i w).1
  pub setting :
      (i k : Str) (x v : CfValue) (w : W)
      → (i == k) ≡ false
      → holds k v w
      → holds k v (store.set_value i x w).1
  pub removing :
      (i k : Str) (v : CfValue) (w : W)
      → (i == k) ≡ false
      → holds k v w
      → holds k v (store.remove_value i w).1

module _ {W : Type 0} (store : DynamicStore W) (encode : Dns → ℕ → Option Str) (digest : Str → Str)
    (show : ℕ → Str) (interfaces : Dict ℕ) (holds : Str → CfValue → W → Type 0)
    (lawful : IsLawful store holds) (k : Str) (v : CfValue) where
  abbrev Kept : {A : Type 0} → Action W A → Type 0
  Kept {A} m = Ensures (holds k v) (λ (r : Result A). holds k v) m

  -- What a copy says of the key that holds the value.
  abbrev Seen : Str → Result (Option CfValue) → W → Type 0
  Seen i r w = holds k v w × ((o : Option CfValue) → r ≡ ok o → (i == k) ≡ true → o ≡ some v)

  -- A copy of the held value, as `copying` has it.
  abbrev Copied : Str → Option CfValue → W → Type 0
  Copied i o w = (i == k) ≡ true → (o ≡ some v) ⊎ FailsToCopy store (o, w)

  copied-Seen :
      (i : Str) (o : Option CfValue) (w : W)
      → holds k v w
      → Copied i o w
      → Seen i (copied store o w).0 (copied store o w).1
  copied-Seen i (some x) w h c = (
    h,
    λ o f same. elim (c same) [
      | inl e ↦ ground (arith, f, e)
      | inr e ↦ absurd (ground (arith, e.0))
    ],
  )
  copied-Seen i none w h c = (
    h,
    λ o f same. elim (c same) [
      | inl e ↦ absurd (ground (arith, e))
      | inr e ↦ absurd (ground (arith, f, e.1))
    ],
  )

  value-Seen : (i : Str) → Ensures (holds k v) (Seen i) (value store i)
  unfolding value
  value-Seen i = record {
    at = λ w h.
        copied-Seen i (store.copy_value i w).0 (store.copy_value i w).1
          (lawful.copy_keeps i k v w h)
          (λ same.
            subst
              (λ j. ((store.copy_value j w).0 ≡ some v) ⊎ FailsToCopy store (store.copy_value j w))
              (sym ((str_beq_iff i k).0 same)) (lawful.copying k v w h));
  }

  value-Kept : (i : Str) → Kept (value store i)
  value-Kept i = record { at = λ w h. ((value-Seen i).at w h).0 }

  bound-Kept : (resource : Resource) → Kept (bound store encode digest show interfaces resource)
  unfolding bound
  bound-Kept resource = record { at = λ w h. h }

  -- On success the key is another one.
  abbrev Apart : Str → Result (Unit {0}) → W → Type 0
  Apart i r w = holds k v w × (r ≡ ok tt → (i == k) ≡ false)

  -- A test that a copy of the held value does not pass.
  refuse_if-Apart :
      (i : Str) (o : Option CfValue) (bad : Bool) (e : ErrorCode)
      → (o ≡ some v → bad ≡ true)
      → Ensures (Seen i (ok o)) (Apart i) (refuse_if bad e)
  unfolding refuse_if
  refuse_if-Apart i o true e h = record { at = λ w s. (s.0, λ f. cc) }
  refuse_if-Apart i o false e h = record {
    at = λ w s. (
      s.0,
      λ f. elim (Bool-cases (i == k)) [
        | inl same ↦ absurd (ground (arith, h (s.1 o refl same)))
        | inr apart ↦ apart
      ],
    );
  }

  set-Kept :
      (i : Str) (x : CfValue)
      → Ensures (Apart i (ok tt)) (λ r. holds k v) (checked store (store.set_value i x))
  unfolding checked
  set-Kept i x = record { at = λ w a. lawful.setting i k x v w (a.1 refl) a.0 }

  remove-Kept :
      (i : Str) → Ensures (Apart i (ok tt)) (λ r. holds k v) (checked store (store.remove_value i))
  unfolding checked
  remove-Kept i = record { at = λ w a. lawful.removing i k v w (a.1 refl) a.0 }

  answer-Kept :
      {A : Type 0} {P : W → Type 0} (r : Result A) → Ensures P (λ (q : Result A). P) (answer r)
  unfolding answer
  answer-Kept r = record { at = λ w p. p }

  if-Kept : {A : Type 0} (b : Bool) {m n : Action W A} → Kept m → Kept n → Kept (if b then m else n)
  if-Kept true km kn = km
  if-Kept false km kn = kn

  inspected-Kept :
      (dns : Dns) (index : ℕ) (o : Option CfValue)
      → Kept (inspected store encode digest show interfaces dns index o)
  unfolding inspected
  inspected-Kept dns index none = Ensures-done none (λ w h. h)
  inspected-Kept dns index (some x) =
      if-Kept (equals x (dictionary dns))
        (Ensures-bind (λ r. holds k v) (answer-Kept (identity encode digest dns index))
          (λ id. Ensures-done (some id) (λ w h. h)) (λ e w h. h))
        (Ensures-refuse network_conflict (λ w h. h))

  inspect-Kept : (resource : Resource) → Kept (inspect store encode digest show interfaces resource)
  unfolding inspect
  inspect-Kept resource =
      Ensures-bind (λ r. holds k v) (bound-Kept resource)
        (λ s.
          Ensures-bind (λ r. holds k v) (value-Kept (dns_key show s.1)) (inspected-Kept s.0 s.1)
            (λ e w h. h))
        (λ e w h. h)

  confirmed-Kept :
      (dns : Dns) (index : ℕ) (o : Option CfValue)
      → Kept (confirmed store encode digest show interfaces dns index o)
  unfolding confirmed
  confirmed-Kept dns index none = Ensures-refuse recovery_required (λ w h. h)
  confirmed-Kept dns index (some x) =
      if-Kept (equals x (dictionary dns)) (answer-Kept (identity encode digest dns index))
        (Ensures-refuse recovery_required (λ w h. h))

  apply-Kept : (resource : Resource) → Kept (apply store encode digest show interfaces resource)
  unfolding apply
  apply-Kept resource =
      Ensures-bind (λ r. holds k v) (bound-Kept resource)
        (λ s.
          let i = dns_key show s.1 in
          Ensures-bind (Seen i) (value-Seen i)
            (λ present.
              Ensures-bind (λ r. holds k v)
                (Ensures-bind (λ r. holds k v)
                  (Ensures-bind (Apart i)
                    (refuse_if-Apart i present (is_some present) network_conflict
                      (λ f. ground (arith, f)))
                    (λ u. set-Kept i (cf_dictionary (dictionary s.0))) (λ e w a. a.0))
                  (λ u. value-Kept i) (λ e w h. h))
                (confirmed-Kept s.0 s.1) (λ e w h. h))
            (λ e w a. a.0))
        (λ e w h. h)

  withdraw-Kept :
      ((d : Dns) → equals v (dictionary d) ≡ false)
      → (dns : Dns) (index : ℕ) (expected : Str) (o : Option CfValue)
      → Ensures
          (Seen (dns_key show index) (ok o))
          (λ r. holds k v)
          (withdraw store encode digest show interfaces dns index expected o)
  unfolding withdraw
  withdraw-Kept foreign dns index expected none = Ensures-done tt (λ w s. s.0)
  withdraw-Kept foreign dns index expected (some x) =
      let i = dns_key show index in
      Ensures-bind (λ r. Seen i (ok (some x))) (answer-Kept (identity encode digest dns index))
        (λ id.
          Ensures-bind (λ r. holds k v)
            (Ensures-bind (λ r. holds k v)
              (Ensures-bind (Apart i)
                (refuse_if-Apart i (some x)
                  (not (expected == id) || not (equals x (dictionary dns))) recovery_required
                  (λ f. ground (arith, f, foreign dns)))
                (λ u. remove-Kept i) (λ e w a. a.0))
              (λ u. value-Kept i) (λ e w h. h))
            (λ left. record {
              at = λ w h.
                  ((Ensures-refuse_if {P = holds k v} (is_some left) recovery_required).at w h).0;
            })
            (λ e w h. h))
        (λ e w s. s.0)

  withdrawn-Kept :
      ((d : Dns) → equals v (dictionary d) ≡ false)
      → (resource : Resource) (expected : Str)
      → Kept (remove store encode digest show interfaces resource expected)
  unfolding remove
  withdrawn-Kept foreign resource expected =
      Ensures-bind (λ r. holds k v) (bound-Kept resource)
        (λ s.
          Ensures-bind (Seen (dns_key show s.1)) (value-Seen (dns_key show s.1))
            (withdraw-Kept foreign s.0 s.1 expected) (λ e w s. s.0))
        (λ e w h. h)

  -- With a lawful store, whose calls may fail, a value that is not the dictionary of a DNS resource stays under its key,
  -- whatever is inspected, applied or removed, with whatever fingerprint, failing calls included.
  pub foreign_dns_stays :
      ((d : Dns) → equals v (dictionary d) ≡ false)
      → (resource : Resource) (expected : Str) (w : W) → holds k v w
      → let backend = supplemental_dns store encode digest show interfaces in
        holds k v (backend.inspect resource w).1
        × holds k v (backend.apply resource w).1
        × holds k v (backend.remove resource expected w).1
  unfolding supplemental_dns
  foreign_dns_stays foreign resource expected w h = (
    (inspect-Kept resource).at w h,
    (apply-Kept resource).at w h,
    (withdrawn-Kept foreign resource expected).at w h,
  )
