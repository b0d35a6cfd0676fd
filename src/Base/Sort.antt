-- ===== src/Base/Sort.antt =====
-- `Vec<String>::sort`, `dedup`, and the comparison of values in any order.
use mathlib.Core.Path.{subst}
use mathlib.Core.List.{Perm}
use mathlib.Core.List.Perm
use openfortivpn.Base.{
  ◌≡◌, refl, sym, arith, inl, inr, Bool-cases, List, [], ◌∷◌, Bool, true, false, ◌==◌,
  if◌then◌else◌,
}
use openfortivpn.Base.Text.{Str, str_lt, str_equality, str_beq_iff}

unfoldable pub insert_sorted : Str → List Str → List Str
insert_sorted s [] = s ∷ []
insert_sorted s (t ∷ ts) = if str_lt t s then t ∷ insert_sorted s ts else s ∷ t ∷ ts

-- `sort`
unfoldable pub sort_texts : List Str → List Str
unfolding insert_sorted
sort_texts [] = []
sort_texts (s ∷ ss) = insert_sorted s (sort_texts ss)

-- `dedup`: of equal neighbours the first stays.
unfoldable pub dedup : List Str → List Str
dedup [] = []
dedup (s ∷ []) = s ∷ []
dedup (s ∷ t ∷ ss) = let rest = dedup (t ∷ ss) in if s == t then rest else s ∷ rest

-- The derived equality of `Vec<String>`
unfoldable pub texts_same : List Str → List Str → Bool
texts_same [] [] = true
texts_same (s ∷ ss) (t ∷ ts) = if s == t then texts_same ss ts else false
texts_same _ _ = false

insert_sorted-Perm : (s : Str) (ts : List Str) → Perm (insert_sorted s ts) (s ∷ ts)
unfolding insert_sorted
insert_sorted-Perm s [] = Perm.refl (s ∷ [])
insert_sorted-Perm s (t ∷ ts) = elim (Bool-cases (str_lt t s)) [
  | inl later ↦ rw later (Perm.trans (Perm.cons t (insert_sorted-Perm s ts)) (Perm.swap s t ts))
  | inr here ↦ rw here (Perm.refl (s ∷ t ∷ ts))
]

pub sort_texts-Perm : (ss : List Str) → Perm (sort_texts ss) ss
unfolding sort_texts
sort_texts-Perm [] = Perm.refl []
sort_texts-Perm (s ∷ ss) =
    Perm.trans (insert_sorted-Perm s (sort_texts ss)) (Perm.cons s (sort_texts-Perm ss))

texts_same_sound : (a b : List Str) → texts_same a b ≡ true → a ≡ b
unfolding texts_same
texts_same_sound [] [] h = refl
texts_same_sound [] (t ∷ ts) h = cc
texts_same_sound (s ∷ ss) [] h = cc
texts_same_sound (s ∷ ss) (t ∷ ts) h = ground (arith, h, str_beq_iff s t, texts_same_sound ss ts)

-- Texts that are the same once sorted are the same up to their order.
pub sorted_same-Perm : (a b : List Str) → texts_same (sort_texts a) (sort_texts b) ≡ true → Perm a b
sorted_same-Perm a b h =
    let same = texts_same_sound (sort_texts a) (sort_texts b) h in
    Perm.trans (Perm.symm (sort_texts-Perm a))
      (subst (λ l. Perm l b) (sym same) (sort_texts-Perm b))
