-- ===== src/Base/Dict.antt =====
-- `BTreeMap<String, V>`: an association list in the order of its keys, which iteration follows.
use openfortivpn.Base.{
  ◌+◌, ◌≤◌, ◌≡◌, refl, Bool, true, List, [], ◌∷◌, Option, none, some, arith, if◌then◌else◌, ◌==◌,
  length, all,
}
use openfortivpn.Base.Text.{Str, str_beq_iff, str_lt, str_equality}

abbrev pub Dict {ℓ} : Type ℓ → Type ℓ
Dict V = List (Str × V)

module _ {ℓ} {V : Type ℓ} where
  -- `get`
  unfoldable pub lookup : Str → Dict V → Option V
  lookup k [] = none
  lookup k ((j, v) ∷ m) = if j == k then some v else lookup k m

  -- `insert`: the old value of a key is replaced
  unfoldable pub insert : Str → V → Dict V → Dict V
  insert k v [] = (k, v) ∷ []
  insert k v ((j, w) ∷ m) =
      if j == k
      then (k, v) ∷ m
      else if str_lt k j
      then (k, v) ∷ (j, w) ∷ m
      else (j, w) ∷ insert k v m

  -- `remove`
  unfoldable pub remove : Str → Dict V → Dict V
  remove k [] = []
  remove k ((j, w) ∷ m) = let rest = remove k m in if j == k then rest else (j, w) ∷ rest

  -- `values`
  abbrev pub values : Dict V → List V
  values [] = []
  values ((k, v) ∷ m) = v ∷ values m

  abbrev pub keys : Dict V → List Str
  keys [] = []
  keys ((k, v) ∷ m) = k ∷ keys m

  -- `values_mut` with one change for every value
  unfoldable pub map_values : (V → V) → Dict V → Dict V
  map_values f [] = []
  map_values f ((k, v) ∷ m) = (k, f v) ∷ map_values f m

  -- `retain` by the value
  unfoldable pub retain : (V → Bool) → Dict V → Dict V
  retain p [] = []
  retain p ((k, v) ∷ m) = let rest = retain p m in if p v then (k, v) ∷ rest else rest

  -- `get_mut(k).unwrap()` and an assignment
  unfoldable pub modify : Str → (V → V) → Dict V → Dict V
  modify k f [] = []
  modify k f ((j, w) ∷ m) = if j == k then (j, f w) ∷ m else (j, w) ∷ modify k f m

  pub lookup-insert :
      (key at : Str) (new : V) (d : Dict V)
      → lookup at (insert key new d) ≡ (if key == at then some new else lookup at d)
  unfolding lookup insert
  lookup-insert key at new [] = refl
  lookup-insert key at new ((i, old) ∷ d) =
      ground
        (arith, str_beq_iff key at, str_beq_iff i key, str_beq_iff i at, lookup-insert key at new d)

  pub lookup-remove :
      (k j : Str) (m : Dict V) → lookup j (remove k m) ≡ (if k == j then none else lookup j m)
  unfolding lookup remove
  lookup-remove k j [] = ground arith
  lookup-remove k j ((i, w) ∷ m) =
      ground (arith, str_beq_iff k j, str_beq_iff i k, str_beq_iff i j, lookup-remove k j m)

  abbrev pub map_option : (V → V) → Option V → Option V
  map_option f none = none
  map_option f (some v) = some (f v)

  pub lookup-map_values :
      (f : V → V) (j : Str) (m : Dict V) → lookup j (map_values f m) ≡ map_option f (lookup j m)
  unfolding lookup map_values
  lookup-map_values f j [] = refl
  lookup-map_values f j ((i, w) ∷ m) = ground (arith, lookup-map_values f j m)

  pub lookup-modify :
      (k j : Str) (f : V → V) (m : Dict V)
      → lookup j (modify k f m) ≡ (if k == j then map_option f (lookup j m) else lookup j m)
  unfolding lookup modify
  lookup-modify k j f [] = ground arith
  lookup-modify k j f ((i, w) ∷ m) =
      ground (arith, str_beq_iff k j, str_beq_iff i k, str_beq_iff i j, lookup-modify k j f m)

  -- What holds of every value holds of one that is found.
  pub all-lookup :
      (p : V → Bool) (k : Str) (m : Dict V) (v : V)
      → all p (values m) ≡ true
      → lookup k m ≡ some v
      → p v ≡ true
  unfolding lookup
  all-lookup p k [] v h e = cc
  all-lookup p k ((j, w) ∷ m) v h e = ground (arith, all-lookup p k m v)

  remove_absent : (k : Str) (m : Dict V) → lookup k m ≡ none → remove k m ≡ m
  unfolding lookup remove
  remove_absent k [] h = refl
  remove_absent k ((j, w) ∷ m) h = ground (arith, remove_absent k m)

  -- An insertion of a new key is undone by its removal.
  pub remove-insert :
      (k : Str) (v : V) (m : Dict V) → lookup k m ≡ none → remove k (insert k v m) ≡ m
  unfolding lookup insert remove
  remove-insert k v [] h = ground (arith, str_beq_iff k k)
  remove-insert k v ((j, w) ∷ m) h =
      ground (arith, str_beq_iff k k, remove_absent k m, remove-insert k v m)

  pub length-insert : (k : Str) (v : V) (m : Dict V) → length (insert k v m) ≤ length m + 1
  unfolding insert
  length-insert k v [] = omega arith
  length-insert k v ((j, w) ∷ m) = ground (arith, length-insert k v m)

  pub length-remove-le : (k : Str) (m : Dict V) → length (remove k m) ≤ length m
  unfolding remove
  length-remove-le k [] = omega arith
  length-remove-le k ((j, w) ∷ m) = ground (arith, length-remove-le k m)

  pub length-modify : (k : Str) (f : V → V) (m : Dict V) → length (modify k f m) ≡ length m
  unfolding modify
  length-modify k f [] = refl
  length-modify k f ((j, w) ∷ m) = ground (arith, length-modify k f m)

  pub length-map_values : (f : V → V) (m : Dict V) → length (map_values f m) ≡ length m
  unfolding map_values
  length-map_values f [] = refl
  length-map_values f ((j, w) ∷ m) = omega (arith, length-map_values f m)

  pub length-retain-le : (p : V → Bool) (m : Dict V) → length (retain p m) ≤ length m
  unfolding retain
  length-retain-le p [] = omega arith
  length-retain-le p ((j, w) ∷ m) = ground (arith, length-retain-le p m)
