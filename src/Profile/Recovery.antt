-- ===== src/Profile/Recovery.antt =====
-- The journal of credential intents: crates/manager-core/src/credential_journal.rs. The calls on its
-- directory, the random numbers and the JSON codec act on a state `W`; a path is its name and
-- whether it lies in the directory.
pub mod Spares
pub mod Unreadable
use openfortivpn.Base.{
  ℕ, Bool, true, false, not, ◌&&◌, ◌||◌, List, [], ◌∷◌, ◌++◌, Option, none, some, ltb, leb, ◌==◌,
  length, if◌then◌else◌, option_equality, ◌+◌, is_some_and,
}
use openfortivpn.Base.Text.{Str, str_equality, lit, starts_with, str_lt}
use openfortivpn.Base.Dict.{keys}
use openfortivpn.Base.Error.{Result, ok, err, recovery_required}
use openfortivpn.Base.Action.{Action, ◌>>=◌, ◌>>◌, done, refuse, answer, refuse_if}
use openfortivpn.Profile.Archive.{StrSet, CredentialGc, credential_gc}
use openfortivpn.Profile.Journal.{Intent, validate_intent}
use openfortivpn.Base.Sort.{sort_texts}

-- An entry of the directory; its file type may be unknown.
pub record Item : Type 0 where
  pub name : Str
  pub is_file : Option Bool

pub record Location : Type 0 where
  pub inside : Bool
  pub name : Str

-- The calls on the directory. `read` reads and decodes an intent, `write_new` encodes and writes
-- one, and `nonce` is sixteen random bytes in hexadecimal digits.
pub record IntentStore (W : Type 0) : Type 0 where
  pub verify : Action W (Unit {0})
  pub read_dir : Action W (List Item)
  pub nonce : Action W Str
  pub write_new : Str → Intent → Action W (Unit {0})
  pub read : Str → Action W Intent
  pub remove_file : Str → Action W (Unit {0})
  pub sync : Action W (Unit {0})

-- `PREFIX`
abbrev pub intent_prefix : Str
intent_prefix = lit ".credential-intent."

-- `MAX_INTENTS`
abbrev max_intents : ℕ
max_intents = 8192

-- `map_err(|_| failed())`
abbrev pub as_failed {ℓ} : {A : Type ℓ} → Result A → Result A
as_failed (ok a) = ok a
as_failed (err e) = err recovery_required

unfoldable pub or_failed : {W A : Type 0} → Action W A → Action W A
or_failed m w = let (r, w') = m w in (as_failed r, w')

-- The loop of `entries`; `paths` are those found so far.
unfoldable pub intent_names : List Item → List Str → Result (List Str)
intent_names [] paths = ok paths
intent_names (item ∷ items) paths =
    let rest = intent_names items (paths ++ (item.name ∷ [])) in
    if not (starts_with item.name intent_prefix)
    then intent_names items paths
    else if not (is_some_and item.is_file (λ b. b))
    then err recovery_required
    else if leb max_intents (length paths + 1)
    then err recovery_required
    else rest

abbrev candidate : Option Str → List Str
candidate none = []
candidate (some reference) = reference ∷ []

-- The references of an intent, the old one first.
abbrev pub candidates : Intent → List Str
candidates intent = candidate intent.old_ref ++ candidate intent.new_ref

module _ {W : Type 0} (store : IntentStore W) where
  -- `entries`
  unfoldable pub entries : Action W (List Str)
  unfolding or_failed intent_names sort_texts
  entries = or_failed store.verify >> or_failed store.read_dir >>= λ items.
      answer (intent_names items []) >>= λ paths. done (sort_texts paths)

  -- `begin`
  unfoldable pub begin : Intent → Action W Location
  unfolding entries or_failed
  begin intent = answer (validate_intent intent) >> entries >> or_failed store.nonce >>= λ nonce.
      let name = intent_prefix ++ nonce ++ lit ".json" in
      or_failed (store.write_new name intent) >> done (record { inside = true; name = name })

  -- The parsing of one record in `recover`.
  unfoldable pub parse_intent : Str → Action W (Str × Intent)
  unfolding or_failed
  parse_intent name = or_failed (store.read name) >>= λ intent.
      answer (validate_intent intent) >> done (name, intent)

  unfoldable pub parse_intents : List Str → Action W (List (Str × Intent))
  unfolding parse_intent
  parse_intents [] = done []
  parse_intents (name ∷ names) =
      parse_intent name >>= λ first. parse_intents names >>= λ rest. done (first ∷ rest)

  -- All that `recover` does before it deletes.
  unfoldable pub parsed : Action W (List (Str × Intent))
  unfolding entries parse_intents
  parsed = entries >>= parse_intents

  module _ (delete : Str → Action W (Unit {0})) where
    -- The loop over `gc.delete`.
    unfoldable pub delete_all : List Str → Action W (Unit {0})
    delete_all [] = done tt
    delete_all (reference ∷ references) = delete reference >> delete_all references

    -- The end of `collect`.
    unfoldable pub forget : Bool → Str → Action W (Unit {0})
    unfolding or_failed
    forget true name = done tt
    forget false name = or_failed (store.remove_file name) >> or_failed store.sync

    -- What `collect` does for the garbage it has found.
    unfoldable pub collect_garbage : Str → CredentialGc → Action W (Unit {0})
    unfolding delete_all forget
    collect_garbage name gc = delete_all (keys gc.delete) >> forget gc.deferred_for_backup name

    -- `collect`
    unfoldable pub collect : Location → Intent → StrSet → StrSet → Action W (Unit {0})
    unfolding or_failed collect_garbage
    collect path intent active backup =
        answer (validate_intent intent)
        >> or_failed store.verify
        >> refuse_if (not path.inside || not (starts_with path.name intent_prefix))
            recovery_required
        >> collect_garbage path.name (credential_gc (candidates intent) active backup)

    unfoldable pub collect_all : StrSet → StrSet → List (Str × Intent) → Action W (Unit {0})
    unfolding collect
    collect_all active backup [] = done tt
    collect_all active backup ((name, intent) ∷ rest) =
        collect (record { inside = true; name = name }) intent active backup
        >> collect_all active backup rest

    -- `recover`
    unfoldable pub recover : StrSet → StrSet → Action W (Unit {0})
    unfolding parsed collect_all
    recover active backup = parsed >>= collect_all active backup
