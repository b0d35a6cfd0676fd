-- ===== src/Profile/Recovery/Spares.antt =====
-- What the recovery of credentials leaves alone.
use openfortivpn.Base.{
  ◌≡◌, Bool, true, false, not, ◌||◌, List, [], ◌∷◌, All, arith, any, ◌==◌, eq_refl,
}
use openfortivpn.Base.Text.{Str, str_equality, starts_with}
use openfortivpn.Base.Dict.{keys, lookup}
use openfortivpn.Base.Error.{Result, ErrorCode, recovery_required}
use openfortivpn.Base.Action.{Action, Ensures, Ensures-bind, ◌>>=◌, answer, done, refuse_if}
use openfortivpn.Profile.Archive.{StrSet, contains, credential_gc}
use openfortivpn.Profile.Gc.{credential_gc_exact}
use openfortivpn.Profile.Journal.{Intent, validate_intent}
use openfortivpn.Profile.Recovery.{
  IntentStore, Location, or_failed, entries, intent_names, delete_all, forget, collect_garbage,
  collect, parse_intent, parse_intents, parsed, collect_all, recover, candidates, intent_prefix,
}
use openfortivpn.Base.Sort.{sort_texts}

-- The action keeps `P`, whether it returns or fails.
abbrev pub Preserves : {W A : Type 0} → (W → Type 0) → Action W A → Type 0
Preserves P m = Ensures P (λ r. P) m

-- What looking at the journal keeps.
pub record KeptByReading {W : Type 0} (P : W → Type 0) (store : IntentStore W) : Type 0 where
  pub verify : Preserves P store.verify
  pub read_dir : Preserves P store.read_dir
  pub read : (name : Str) → Preserves P (store.read name)

module _ {W : Type 0} {P : W → Type 0} where
  pub or_failed-Preserves :
      {A : Type 0} (m : Action W A) → Preserves P m → Preserves P (or_failed m)
  unfolding or_failed
  or_failed-Preserves m h = record { at = λ w p. h.at w p }

  Preserves-bind :
      {A B : Type 0} (m : Action W A) (f : A → Action W B)
      → Preserves P m
      → ((a : A) → Preserves P (f a))
      → Preserves P (m >>= f)
  Preserves-bind m f km kf = Ensures-bind (λ r. P) km kf (λ e w p. p)

  answer-Preserves : {A : Type 0} (r : Result A) → Preserves P (answer r)
  unfolding answer
  answer-Preserves r = record { at = λ w p. p }

  done-Preserves : {A : Type 0} (a : A) → Preserves P (done a)
  unfolding done
  done-Preserves a = record { at = λ w p. p }

  refuse_if-Preserves : (bad : Bool) (e : ErrorCode) → Preserves P (refuse_if bad e)
  unfolding refuse_if
  refuse_if-Preserves true e = record { at = λ w p. p }
  refuse_if-Preserves false e = record { at = λ w p. p }

  ruleset preserves_rules =
      (Preserves-bind, or_failed-Preserves, answer-Preserves, done-Preserves, refuse_if-Preserves)

  module _ (store : IntentStore W) (reading : KeptByReading P store) where
    entries-Preserves : Preserves P (entries store)
    unfolding entries
    entries-Preserves =
        Preserves-bind _ _
          (Preserves-bind _ _ (or_failed-Preserves store.verify reading.verify)
            (λ u. or_failed-Preserves store.read_dir reading.read_dir))
          (λ items.
            Preserves-bind _ _ (answer-Preserves (intent_names items []))
              (λ paths. done-Preserves (sort_texts paths)))

    pub parse_intent-Preserves : (name : Str) → Preserves P (parse_intent store name)
    unfolding parse_intent
    parse_intent-Preserves name = search (preserves_rules, reading.read) depth 8

    parse_intents-Preserves : (names : List Str) → Preserves P (parse_intents store names)
    unfolding parse_intents
    parse_intents-Preserves [] = done-Preserves []
    parse_intents-Preserves (name ∷ names) =
        Preserves-bind _ _ (parse_intent-Preserves name)
          (λ first. Preserves-bind _ _ (parse_intents-Preserves names) (λ rest. done-Preserves _))

    parsed-Preserves : Preserves P (parsed store)
    unfolding parsed
    parsed-Preserves = Preserves-bind _ _ entries-Preserves parse_intents-Preserves

keys_contained :
    (part : List Str) (all : StrSet)
    → ((k : Str) → any (λ j. j == k) part ≡ true → contains k all ≡ true)
    → All (λ k. contains k all ≡ true) part
keys_contained [] all h = tt
keys_contained (k ∷ part) all h =
    (h k (ground (arith, eq_refl k)), keys_contained part all (λ j e. h j (ground (arith, e))))

keys-contains : (k : Str) (d : StrSet) → any (λ j. j == k) (keys d) ≡ true → contains k d ≡ true
unfolding lookup
keys-contains k [] h = cc
keys-contains k ((j, u) ∷ d) h = ground (arith, h, keys-contains k d)

-- What a deletion keeps that concerns a reference which neither catalog names.
abbrev pub KeptByDeletion :
    {W : Type 0} → (W → Type 0) → StrSet → StrSet → (Str → Action W (Unit {0})) → Type 0
KeptByDeletion P active backup delete =
    (k : Str) → contains k active ≡ false → contains k backup ≡ false → Preserves P (delete k)

module _ {W : Type 0} {P : W → Type 0} (store : IntentStore W) (reading : KeptByReading P store)
    (removing : (name : Str) → Preserves P (store.remove_file name))
    (syncing : Preserves P store.sync) (delete : Str → Action W (Unit {0})) (active backup : StrSet)
    (deleting : KeptByDeletion P active backup delete) where
  delete_all-Preserves :
      (ks : List Str)
      → All (λ k. (contains k active ≡ false) × (contains k backup ≡ false)) ks
      → Preserves P (delete_all store delete ks)
  unfolding delete_all
  delete_all-Preserves [] h = done-Preserves tt
  delete_all-Preserves (k ∷ ks) h =
      Preserves-bind _ _ (deleting k h.0.0 h.0.1) (λ u. delete_all-Preserves ks h.1)

  garbage_unnamed :
      (cs : List Str) (k : Str)
      → contains k (credential_gc cs active backup).delete ≡ true
      → (contains k active ≡ false) × (contains k backup ≡ false)
  garbage_unnamed cs k h = ground (arith, h, (credential_gc_exact cs active backup k).0)

  garbage_of_intents :
      (cs ks : List Str)
      → All (λ k. contains k (credential_gc cs active backup).delete ≡ true) ks
      → All (λ k. (contains k active ≡ false) × (contains k backup ≡ false)) ks
  garbage_of_intents cs [] h = tt
  garbage_of_intents cs (k ∷ ks) h = (garbage_unnamed cs k h.0, garbage_of_intents cs ks h.1)

  forget-Preserves :
      (deferred : Bool) (name : Str) → Preserves P (forget store delete deferred name)
  unfolding forget
  forget-Preserves true name = done-Preserves tt
  forget-Preserves false name =
      Preserves-bind _ _ (or_failed-Preserves (store.remove_file name) (removing name))
        (λ u. or_failed-Preserves store.sync syncing)

  collect-Preserves :
      (path : Location) (intent : Intent)
      → Preserves P (collect store delete path intent active backup)
  unfolding collect collect_garbage
  collect-Preserves path intent =
      let gc = credential_gc (candidates intent) active backup in
      Preserves-bind _ _
        (Preserves-bind _ _
          (Preserves-bind _ _ (answer-Preserves (validate_intent intent))
            (λ u. or_failed-Preserves store.verify reading.verify))
          (λ u.
            refuse_if-Preserves (not path.inside || not (starts_with path.name intent_prefix))
              recovery_required))
        (λ u.
          Preserves-bind _ _
            (delete_all-Preserves (keys gc.delete) (
              garbage_of_intents (candidates intent) (keys gc.delete)
                (keys_contained (keys gc.delete) gc.delete (λ k e. keys-contains k gc.delete e))))
            (λ v. forget-Preserves gc.deferred_for_backup path.name))

  collect_all-Preserves :
      (intents : List (Str × Intent)) → Preserves P (collect_all store delete active backup intents)
  unfolding collect_all
  collect_all-Preserves [] = done-Preserves tt
  collect_all-Preserves ((name, intent) ∷ rest) =
      Preserves-bind _ _ (collect-Preserves (record { inside = true; name = name }) intent)
        (λ u. collect_all-Preserves rest)

  -- Whatever the calls on the journal keep, and the deletion of a credential keeps that neither the
  -- active catalog nor the backup names, the recovery keeps on every branch.
  pub recover_spares_named : (w : W) → P w → P (recover store delete active backup w).1
  unfolding recover
  recover_spares_named w p =
      (Preserves-bind _ _ (parsed-Preserves store reading) collect_all-Preserves).at w p
