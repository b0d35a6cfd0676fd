-- ===== src/Engine/Cursor.antt =====
-- `EventCursor` of crates/manager-core/src/protocol.rs.
use openfortivpn.Base.{
  ℕ, Bool, true, false, Option, none, some, ltb, leb, if◌then◌else◌, ◌==◌, ◌&&◌, ◌||◌, not, is_some,
  nat_equality,
}
use openfortivpn.Base.Error.{Result, ok, err, invalid_input}

pub record EventCursor : Type 0 where
  pub last : Option ℕ

-- `EventCursor::default`
abbrev pub new_cursor : EventCursor
new_cursor = record { last = none }

-- What `accept` does with a sequence number.
unfoldable pub advance : EventCursor → Option ℕ → Result Bool × EventCursor
advance c none = (ok true, c)
advance c (some seq) =
    if elim c.last [ none ↦ false | some last ↦ leb seq last ]
    then (ok false, c)
    else (ok true, record { last = some seq })

-- `EventCursor::accept`
unfoldable pub accept : EventCursor → ℕ → Option ℕ → Result Bool × EventCursor
unfolding advance
accept c protocol seq =
    if ltb 2 protocol || (protocol == 2 && not (is_some seq))
    then (err invalid_input, c)
    else advance c seq
