-- ===== src/Logs/Buffer.antt =====
-- `LogBuffer` of crates/manager-core/src/log_buffer.rs.
pub mod Bounds
use openfortivpn.Base.{
  refl, arith, ◌≡◌, some, none, true, false, [], ◌∷◌, inl, inr, Bool-cases, Option-cases,
  if◌then◌else◌, Bool, List, Option, ℕ, not, ◌==◌, ◌||◌, ◌&&◌, ltb, leb, max, is_some, length, ◌<◌,
  ◌≤◌, suc, any, all, ◌+◌, ◌-◌, saturating_add, ◌++◌, nat_equality, reverse, take, filter,
  is_none_or,
}
use openfortivpn.Base.Text.{Str, str_equality, str_beq_iff, len, lit}
use openfortivpn.Logs.Lines.{redact, max_line_bytes}

pub record LogEvent : Type 0 where
  pub id : ℕ
  pub instance_id : Str
  pub stream : Str
  pub line : Str
  pub timestamp : ℕ

pub record LogBuffer : Type 0 where
  pub events : List LogEvent
  pub bytes : ℕ
  pub max_events : ℕ
  pub max_bytes : ℕ
  pub evicted : ℕ

-- `LogBuffer::new`
unfoldable pub new_buffer : ℕ → ℕ → LogBuffer
new_buffer max_events max_bytes = record {
  events = [];
  bytes = 0;
  max_events = max_events;
  max_bytes = max_bytes;
  evicted = 0;
}

-- What `push` stores of an event.
unfoldable pub clean : LogEvent → LogEvent
clean event =
    let line = redact event.line in
    let kept =
      if ltb max_line_bytes (len line) then lit "[oversized log record discarded]" else line in
    record event { line = kept }

-- `event_bytes`, where `size` is the size of the structure.
unfoldable pub event_bytes : (size : ℕ) → LogEvent → ℕ
event_bytes size event = size + len event.line + len event.instance_id + len event.stream

-- The loop of `push` that makes room for an event of `needed` bytes: the events, the bytes and the
-- count of the evicted events.
unfoldable pub make_room :
    (size : ℕ) → ℕ → LogBuffer → List LogEvent → ℕ → ℕ → List LogEvent × ℕ × ℕ
make_room size needed b [] bytes evicted = ([], bytes, evicted)
make_room size needed b (old ∷ rest) bytes evicted =
    let next =
      make_room size needed b rest (bytes - event_bytes size old) (saturating_add evicted 1) in
    if leb b.max_events (length (old ∷ rest)) || ltb (b.max_bytes - needed) bytes
    then next
    else (old ∷ rest, bytes, evicted)

-- `push` of an event that is cleaned.
unfoldable pub push_clean : (size : ℕ) → LogEvent → LogBuffer → LogBuffer
unfolding make_room
push_clean size event b =
    let needed = event_bytes size event in
    let (events, bytes, evicted) = make_room size needed b b.events b.bytes b.evicted in
    if ltb b.max_bytes needed || b.max_events == 0
    then record b { evicted = saturating_add b.evicted 1 }
    else record b { events = events ++ event ∷ []; bytes = bytes + needed; evicted = evicted }

-- `push`
unfoldable pub push : (size : ℕ) → LogEvent → LogBuffer → LogBuffer
unfolding clean
push size event b = push_clean size (clean event) b

-- `recent`: the newest events of an instance, oldest first, at least one and at most as many as the
-- buffer keeps.
unfoldable pub recent : Option Str → ℕ → LogBuffer → List LogEvent
recent instance limit b =
    let at_most = max b.max_events 1 in
    let clamped = if ltb limit 1 then 1 else if ltb at_most limit then at_most else limit in
    reverse (
      take clamped (
        filter (λ (e : LogEvent). is_none_or instance (λ id. e.instance_id == id))
          (reverse b.events)))
