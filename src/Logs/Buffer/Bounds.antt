-- ===== src/Logs/Buffer/Bounds.antt =====
-- The budget of the buffer.
use openfortivpn.Base.{
  arith, ◌≡◌, [], ◌∷◌, inl, inr, Bool-cases, List, ℕ, ◌==◌, ◌||◌, ltb, leb, length, ◌<◌, ◌≤◌, ◌+◌,
  ◌++◌, ◌-◌, saturating_add, length-append_one, nat_equality,
}
use openfortivpn.Base.Text.{str_equality}
use openfortivpn.Logs.Buffer.{LogEvent, LogBuffer, event_bytes, make_room, push, push_clean, clean}

unfoldable pub total_bytes : (size : ℕ) → List LogEvent → ℕ
total_bytes size [] = 0
total_bytes size (e ∷ es) = event_bytes size e + total_bytes size es

-- The buffer counts its bytes and keeps to its bounds.
pub record IsWithin (size : ℕ) (b : LogBuffer) : Type 0 where
  pub counted : b.bytes ≡ total_bytes size b.events
  pub few : length b.events ≤ b.max_events
  pub small : b.bytes ≤ b.max_bytes

total_bytes-append_one :
    (size : ℕ) (es : List LogEvent) (e : LogEvent)
    → total_bytes size (es ++ e ∷ []) ≡ total_bytes size es + event_bytes size e
unfolding total_bytes
total_bytes-append_one size [] e = omega arith
total_bytes-append_one size (x ∷ es) e = omega (arith, total_bytes-append_one size es e)

-- The room that the loop makes.
make_room_fits :
    (size needed : ℕ) (b : LogBuffer) (es : List LogEvent) (bytes evicted : ℕ)
    → bytes ≡ total_bytes size es
    → needed ≤ b.max_bytes
    → 1 ≤ b.max_events
    → ((make_room size needed b es bytes evicted).1
        ≡ total_bytes size (make_room size needed b es bytes evicted).0)
      × (length (make_room size needed b es bytes evicted).0 < b.max_events)
      × ((make_room size needed b es bytes evicted).1 + needed ≤ b.max_bytes)
unfolding make_room total_bytes
make_room_fits size needed b [] bytes evicted counted fits some_room =
    (counted, omega (arith, some_room), omega (arith, counted, fits))
make_room_fits size needed b (old ∷ rest) bytes evicted counted fits some_room =
    let step =
      make_room_fits size needed b rest (bytes - event_bytes size old) (saturating_add evicted 1)
        (omega (arith, counted)) fits some_room in
    let full = leb b.max_events (length (old ∷ rest)) || ltb (b.max_bytes - needed) bytes in
    elim (Bool-cases full) [
      | inl evicts ↦ rw evicts step
      | inr room ↦ (rw room counted, ground (arith, room), ground (arith, room))
    ]

-- A buffer that counts its bytes and keeps to its bounds does so after every push: at most
-- max_events events and max_bytes bytes are kept, and the count of the bytes is exact.
pub push-IsWithin :
    (size : ℕ) (event : LogEvent) (b : LogBuffer)
    → IsWithin size b
    → IsWithin size (push size event b)
unfolding push push_clean
push-IsWithin size event b h =
    let e = clean event in
    let needed = event_bytes size e in
    let over = ltb b.max_bytes needed || b.max_events == 0 in
    elim (Bool-cases over) [
      | inl refused ↦ rw refused (record { counted = h.counted; few = h.few; small = h.small })
      | inr fine ↦
          let (counted, few, small) =
            make_room_fits size needed b b.events b.bytes b.evicted h.counted (ground (arith, fine))
              (ground (arith, fine)) in
          let left = (make_room size needed b b.events b.bytes b.evicted).0 in
          rw fine (record {
            counted = omega (arith, counted, total_bytes-append_one size left e);
            few = omega (arith, few, length-append_one left e);
            small = small;
          })
    ]

-- The newest event is kept as the last one, with its secrets redacted, when it fits the budget.
pub push_newest :
    (size : ℕ) (event : LogEvent) (b : LogBuffer)
    → event_bytes size (clean event) ≤ b.max_bytes
    → 1 ≤ b.max_events
    → (older : List LogEvent) × ((push size event b).events ≡ older ++ clean event ∷ [])
unfolding push push_clean
push_newest size event b fits some_room =
    ((make_room size (event_bytes size (clean event)) b b.events b.bytes b.evicted).0, ground arith)
