-- ===== src/Logs/Retention.antt =====
-- crates/manager-core/src/retention.rs
pub mod Recent
use openfortivpn.Base.{
  [], ◌∷◌, if◌then◌else◌, Bool, List, ℕ, not, ◌==◌, ◌||◌, ◌&&◌, ltb, leb, ◌-◌, ◌*◌, nat_equality,
  map, take, filter,
}
use openfortivpn.Base.Text.{Str, str_equality, str_lt}

abbrev Entry : Type 0
Entry = Str × ℕ

-- The newest first, those of one time by their id.
unfoldable pub precedes : Entry → Entry → Bool
precedes a b = ltb b.1 a.1 || (a.1 == b.1 && not (str_lt b.0 a.0))

unfoldable pub insert_entry : Entry → List Entry → List Entry
unfolding precedes
insert_entry e [] = e ∷ []
insert_entry e (f ∷ fs) =
    let rest = insert_entry e fs in if precedes e f then e ∷ f ∷ fs else f ∷ rest

-- `sort_unstable_by`
unfoldable pub sort_entries : List Entry → List Entry
unfolding insert_entry
sort_entries [] = []
sort_entries (e ∷ es) = insert_entry e (sort_entries es)

-- `terminal_ids_to_keep`, whose set is the list of its ids
unfoldable pub terminal_ids_to_keep : List Entry → ℕ → List Str
unfolding sort_entries
terminal_ids_to_keep entries now =
    let cutoff = now - 7 * 24 * 60 * 60 in
    map (λ (e : Entry). e.0)
      (take 100 (sort_entries (filter (λ (e : Entry). leb cutoff e.1) entries)))
