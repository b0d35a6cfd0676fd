-- ===== src/Profile/Recovery/Unreadable.antt =====
-- A record of the journal that cannot be read, or is not valid, stops the recovery.
use mathlib.Core.Path.{subst}
use openfortivpn.Base.{
  ◌≡◌, refl, sym, Bool, true, false, ◌||◌, List, [], ◌∷◌, ◌++◌, arith, any, ◌==◌, inl, inr,
  Bool-cases,
}
use openfortivpn.Base.Text.{Str, str_equality, str_beq_iff, starts_with}
use openfortivpn.Base.Error.{Result, ok, err, is_ok}
use openfortivpn.Base.Action.{Action, Ensures, Ensures-bind, answer, done}
use openfortivpn.Base.Sort.{insert_sorted, sort_texts}
use openfortivpn.Profile.Archive.{StrSet}
use openfortivpn.Profile.Journal.{Intent, validate_intent}
use openfortivpn.Profile.Recovery.{
  IntentStore, Item, as_failed, or_failed, entries, intent_names, parse_intent, parse_intents,
  parsed, recover, intent_prefix,
}
use openfortivpn.Profile.Recovery.Spares.{
  KeptByReading, or_failed-Preserves, parse_intent-Preserves,
}

-- A file of the journal that is listed whenever the directory is, and whose reading fails or yields
-- an intent that is not valid.
pub record IsUnreadable {W : Type 0} (P : W → Type 0) (store : IntentStore W) (name : Str)
    : Type 0 where
  pub named : starts_with name intent_prefix ≡ true
  pub listed :
      (w : W) (items : List Item)
      → P w
      → (store.read_dir w).0 ≡ ok items
      → any (λ (item : Item). item.name == name) items ≡ true
  pub invalid :
      (w : W) (intent : Intent)
      → P w
      → (store.read name w).0 ≡ ok intent
      → is_ok (validate_intent intent) ≡ false

any-insert_sorted :
    (p : Str → Bool) (s : Str) (ts : List Str) → any p (insert_sorted s ts) ≡ (p s || any p ts)
unfolding insert_sorted
any-insert_sorted p s [] = refl
any-insert_sorted p s (t ∷ ts) = ground (arith, any-insert_sorted p s ts)

any-sort_texts : (p : Str → Bool) (ss : List Str) → any p (sort_texts ss) ≡ any p ss
unfolding sort_texts
any-sort_texts p [] = refl
any-sort_texts p (s ∷ ss) =
    ground (arith, any-insert_sorted p s (sort_texts ss), any-sort_texts p ss)

as_failed_ok {ℓ} : {A : Type ℓ} (r : Result A) (a : A) → as_failed r ≡ ok a → r ≡ ok a
as_failed_ok (ok b) a h = h
as_failed_ok (err e) a h = cc

any-append_one {ℓ} :
    {A : Type ℓ} (p : A → Bool) (xs : List A) (x : A) → any p (xs ++ x ∷ []) ≡ (any p xs || p x)
any-append_one p [] x = ground arith
any-append_one p (y ∷ xs) x = ground (arith, any-append_one p xs x)

module _ {W : Type 0} {P : W → Type 0} (store : IntentStore W) (reading : KeptByReading P store)
    (name : Str) (unreadable : IsUnreadable P store name) where
  abbrev is_name : Str → Bool
  is_name s = s == name

  abbrev has_name : List Str → Bool
  has_name names = any is_name names

  abbrev Fails : {A : Type 0} → Result A → W → Type 0
  Fails r w = (is_ok r ≡ false) × P w

  abbrev Lists : Result (List Str) → W → Type 0
  Lists r w = P w × ((names : List Str) → r ≡ ok names → has_name names ≡ true)

  clash : (s : Str) → (s == name) ≡ true → starts_with s intent_prefix ≡ false → ⊥
  clash s same other =
      let other' : starts_with name intent_prefix ≡ false =
        subst (λ n. starts_with n intent_prefix ≡ false) ((str_beq_iff s name).0 same) other in
      let named : starts_with name intent_prefix ≡ true = unreadable.named in
      ground (arith, named, other')

  intent_names-has_name :
      (items : List Item) (paths names : List Str)
      → (any (λ (item : Item). item.name == name) items || has_name paths) ≡ true
      → intent_names items paths ≡ ok names
      → has_name names ≡ true
  unfolding intent_names
  intent_names-has_name [] paths names h e = ground (arith, h, e)
  intent_names-has_name (item ∷ items) paths names h e =
      elim (Bool-cases (starts_with item.name intent_prefix)) [
        | inr other ↦
            intent_names-has_name items paths names
              (elim (Bool-cases (item.name == name)) [
                | inl same ↦ absurd (clash item.name same other)
                | inr differs ↦ ground (arith, h, differs)
              ])
              (ground (arith, e, other))
        | inl ours ↦
            intent_names-has_name items (paths ++ item.name ∷ []) names
              (ground (arith, h, any-append_one is_name paths item.name)) (ground (arith, e, ours))
      ]

  abbrev HasItem : Result (List Item) → W → Type 0
  HasItem r w =
      P w
      × ((items : List Item) → r ≡ ok items → any (λ (item : Item). item.name == name) items ≡ true)

  read_dir-HasItem : Ensures P HasItem (or_failed store.read_dir)
  unfolding or_failed
  read_dir-HasItem = record {
    at = λ w p. (
      reading.read_dir.at w p,
      λ items f. unreadable.listed w items p (as_failed_ok (store.read_dir w).0 items f),
    );
  }

  entries-Lists : Ensures P Lists (entries store)
  unfolding entries answer done
  entries-Lists =
      Ensures-bind HasItem
        (Ensures-bind (λ r. P) (or_failed-Preserves store.verify reading.verify)
          (λ u. read_dir-HasItem) (λ e w p. (p, λ items f. cc)))
        (λ items.
          Ensures-bind Lists
            (record {
              at = λ w h. (
                h.0,
                λ names f. intent_names-has_name items [] names (ground (arith, h.1 items refl)) f,
              );
            })
            (λ paths. record {
              at = λ w l.
                  (l.0, λ names f. ground (arith, f, any-sort_texts is_name paths, l.1 paths refl));
            })
            (λ e w l. (l.0, λ names f. cc)))
        (λ e w h. (h.0, λ names f. cc))

  never_ok : {A B : Type 0} (a : A) (m : Action W B) → Ensures (Fails (ok a)) Fails m
  never_ok a m = record { at = λ w f. absurd (ground (arith, f.0)) }

  abbrev Rejected : Result Intent → W → Type 0
  Rejected r w = P w × ((i : Intent) → r ≡ ok i → is_ok (validate_intent i) ≡ false)

  read-Rejected : Ensures P Rejected (or_failed (store.read name))
  unfolding or_failed
  read-Rejected = record {
    at = λ w p. (
      (reading.read name).at w p,
      λ i f. unreadable.invalid w i p (as_failed_ok (store.read name w).0 i f),
    );
  }

  parse_intent-Fails : Ensures P Fails (parse_intent store name)
  unfolding parse_intent answer
  parse_intent-Fails =
      Ensures-bind Rejected read-Rejected
        (λ i.
          Ensures-bind Fails (record { at = λ w s. (s.1 i refl, s.0) }) (λ u. never_ok u _)
            (λ e w f. f))
        (λ e w s. (refl, s.0))

  parse_intents-Fails :
      (names : List Str) → has_name names ≡ true → Ensures P Fails (parse_intents store names)
  unfolding parse_intents
  parse_intents-Fails [] h = absurd (ground (arith, h))
  parse_intents-Fails (first ∷ names) h = elim (Bool-cases (first == name)) [
    | inl here ↦
        subst (λ n. Ensures P Fails (parse_intents store (n ∷ names)))
          (sym ((str_beq_iff first name).0 here))
          (Ensures-bind Fails parse_intent-Fails (λ a. never_ok a _) (λ e w f. f))
    | inr there ↦
        Ensures-bind (λ r. P) (parse_intent-Preserves store reading first)
          (λ a.
            Ensures-bind Fails (parse_intents-Fails names (ground (arith, h, there)))
              (λ rest. never_ok rest _) (λ e w f. f))
          (λ e w p. (refl, p))
  ]

  -- If the journal holds a record that cannot be read, or is not valid, the recovery fails, and it
  -- keeps all that reading the journal keeps: it has deleted no credential and no record.
  pub recover_reads_all :
      (delete : Str → Action W (Unit {0})) (active backup : StrSet) (w : W)
      → P w
      → (is_ok (recover store delete active backup w).0 ≡ false)
        × P (recover store delete active backup w).1
  unfolding recover parsed
  recover_reads_all delete active backup w p =
      (Ensures-bind Fails
          (Ensures-bind Lists entries-Lists
            (λ names. record { at = λ v l. (parse_intents-Fails names (l.1 names refl)).at v l.0 })
            (λ e v l. (refl, l.0)))
          (λ a. never_ok a _) (λ e v f. f)).at
        w p
