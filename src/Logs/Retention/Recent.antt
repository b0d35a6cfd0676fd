-- ===== src/Logs/Retention/Recent.antt =====
-- Which terminal instances are kept.
use openfortivpn.Base.{
  refl, arith, ◌≡◌, [], ◌∷◌, ◌≤◌, length, List, ℕ, any, map, filter, take, zero, suc, Bool, ap,
  ◌==◌, leb, ◌||◌, ◌+◌, ◌&&◌, ◌-◌, length-take-le,
}
use openfortivpn.Base.Text.{Str, str_equality}
use openfortivpn.Logs.Retention.{terminal_ids_to_keep, insert_entry, sort_entries}

any-insert_entry :
    (p : Str × ℕ → Bool) (e : Str × ℕ) (es : List (Str × ℕ))
    → any p (insert_entry e es) ≡ (p e || any p es)
unfolding insert_entry
any-insert_entry p e [] = refl
any-insert_entry p e (f ∷ fs) = ground (arith, any-insert_entry p e fs)

any-sort_entries : (p : Str × ℕ → Bool) (es : List (Str × ℕ)) → any p (sort_entries es) ≡ any p es
unfolding sort_entries
any-sort_entries p [] = refl
any-sort_entries p (e ∷ es) =
    ground (arith, any-insert_entry p e (sort_entries es), any-sort_entries p es)

length-insert_entry :
    (e : Str × ℕ) (es : List (Str × ℕ)) → length (insert_entry e es) ≡ length es + 1
unfolding insert_entry
length-insert_entry e [] = refl
length-insert_entry e (f ∷ fs) = ground (arith, length-insert_entry e fs)

length-sort_entries : (es : List (Str × ℕ)) → length (sort_entries es) ≡ length es
unfolding sort_entries
length-sort_entries [] = refl
length-sort_entries (e ∷ es) =
    omega (arith, length-insert_entry e (sort_entries es), length-sort_entries es)

any-filter {ℓ} :
    {A : Type ℓ} (p q : A → Bool) (xs : List A) → any p (filter q xs) ≡ any (λ x. p x && q x) xs
any-filter p q [] = refl
any-filter p q (x ∷ xs) = ground (arith, any-filter p q xs)

take_all {ℓ} : {A : Type ℓ} (n : ℕ) (xs : List A) → length xs ≤ n → take n xs ≡ xs
take_all zero [] h = refl
take_all zero (x ∷ xs) h = absurd (omega (arith, h))
take_all (suc n) [] h = refl
take_all (suc n) (x ∷ xs) h = ap (λ (ys : List _). x ∷ ys) (take_all n xs (omega (arith, h)))

any-map_first :
    (id : Str) (es : List (Str × ℕ))
    → any (λ i. i == id) (map (λ (e : Str × ℕ). e.0) es) ≡ any (λ (e : Str × ℕ). e.0 == id) es
any-map_first id [] = refl
any-map_first id (e ∷ es) = ground (arith, any-map_first id es)

length-map_first : (es : List (Str × ℕ)) → length (map (λ (e : Str × ℕ). e.0) es) ≡ length es
length-map_first [] = refl
length-map_first (e ∷ es) = omega (arith, length-map_first es)

-- At most 100 instances are kept, however many have ended.
pub kept_at_most :
    (entries : List (Str × ℕ)) (now : ℕ) → length (terminal_ids_to_keep entries now) ≤ 100
unfolding terminal_ids_to_keep
kept_at_most entries now =
    let recent = filter (λ (e : Str × ℕ). leb (now - 604800) e.1) entries in
    omega (
      arith,
      length-map_first (take 100 (sort_entries recent)),
      length-take-le 100 (sort_entries recent),
    )

-- While at most 100 entries are of the last seven days, an instance is kept exactly when it has
-- such an entry.
pub kept_exactly :
    (entries : List (Str × ℕ)) (now : ℕ) (id : Str)
    → length (filter (λ (e : Str × ℕ). leb (now - 604800) e.1) entries) ≤ 100
    → any (λ i. i == id) (terminal_ids_to_keep entries now)
      ≡ any (λ (e : Str × ℕ). e.0 == id && leb (now - 604800) e.1) entries
unfolding terminal_ids_to_keep
kept_exactly entries now id few =
    let recent = filter (λ (e : Str × ℕ). leb (now - 604800) e.1) entries in
    rw
      (
        take_all 100 (sort_entries recent) (omega (arith, few, length-sort_entries recent)),
        any-map_first id (sort_entries recent),
        any-sort_entries (λ (e : Str × ℕ). e.0 == id) recent,
      )
      (any-filter (λ (e : Str × ℕ). e.0 == id) (λ (e : Str × ℕ). leb (now - 604800) e.1) entries)
