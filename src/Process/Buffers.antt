-- ===== src/Process/Buffers.antt =====
-- The pool of response buffers: crates/manager-core/src/json_buffer.rs.
use openfortivpn.Base.{
  ◌≡◌, refl, ◌≤◌, ℕ, Bool, ◌&&◌, List, [], ◌∷◌, Option, none, some, All, length, ltb, leb,
  if◌then◌else◌, arith, drop_last, last?, ◌++◌, Bool-cases, inl, length-append_one, inr, All-append,
  Option-cases,
}

-- A `Vec<u8>`
pub record Buffer : Type 0 where
  pub bytes : List ℕ
  pub capacity : ℕ

-- `State`
pub record Pool : Type 0 where
  pub buffers : List Buffer
  pub max_buffers : ℕ
  pub max_capacity : ℕ

-- `JsonBuffers::new`
unfoldable pub new_pool : ℕ → ℕ → Pool
new_pool max_buffers max_capacity = record {
  buffers = [];
  max_buffers = max_buffers;
  max_capacity = max_capacity;
}

abbrev pub cleared : Buffer → Buffer
cleared b = record b { bytes = [] }

-- `pop().unwrap_or_default()` and `clear()`
unfoldable pub popped : Pool → Buffer
popped p = elim (last? p.buffers) [
  | none ↦ record { bytes = []; capacity = 0 }
  | some b ↦ cleared b
]

-- The drop of a lease.
unfoldable pub give_back : Pool → Buffer → Pool
give_back p b =
    if ltb (length p.buffers) p.max_buffers && leb b.capacity p.max_capacity
    then record p { buffers = p.buffers ++ (cleared b ∷ []) }
    else p

-- `encode`, where `write` reserves the capacity and writes the value: it answers whether it has
-- succeeded, and the buffer. A failure drops the lease.
unfoldable pub encode : (write : Buffer → Bool × Buffer) → Pool → Option Buffer × Pool
unfolding popped give_back
encode write p =
    let rest : Pool = record p { buffers = drop_last p.buffers } in
    let (success, b) = write (popped p) in
    if success then (some b, rest) else (none, give_back rest b)

pub data Operation : Type 0 where
  encoding : (write : Buffer → Bool × Buffer) → Operation
  dropping : Buffer → Operation

unfoldable pub operate : Pool → Operation → Pool
unfolding encode
operate p (encoding write) = (encode write p).1
operate p (dropping b) = give_back p b

unfoldable pub operate_all : Pool → List Operation → Pool
unfolding operate
operate_all p [] = p
operate_all p (o ∷ os) = operate_all (operate p o) os

-- A buffer that waits is empty and not too large.
abbrev pub IsReusable : ℕ → Buffer → Type 0
IsReusable max_capacity b = (b.bytes ≡ []) × (b.capacity ≤ max_capacity)

pub record IsClean (p : Pool) : Type 0 where
  pub few : length p.buffers ≤ p.max_buffers
  pub reusable : All (IsReusable p.max_capacity) p.buffers

length-drop_last : (bs : List Buffer) → length (drop_last bs) ≤ length bs
length-drop_last [] = omega arith
length-drop_last (b ∷ []) = omega arith
length-drop_last (b ∷ c ∷ bs) = omega (arith, length-drop_last (c ∷ bs))

All-drop_last :
    (m : ℕ) (bs : List Buffer) → All (IsReusable m) bs → All (IsReusable m) (drop_last bs)
All-drop_last m [] h = tt
All-drop_last m (b ∷ []) h = tt
All-drop_last m (b ∷ c ∷ bs) h = (h.0, All-drop_last m (c ∷ bs) h.1)

give_back-IsClean : (p : Pool) (b : Buffer) → IsClean p → IsClean (give_back p b)
unfolding give_back
give_back-IsClean p b h =
    elim (Bool-cases (ltb (length p.buffers) p.max_buffers && leb b.capacity p.max_capacity)) [
      | inl fits ↦ rw fits (record {
        few = ground (arith, fits, length-append_one p.buffers (cleared b));
        reusable =
            All-append (IsReusable p.max_capacity) p.buffers (cleared b ∷ []) h.reusable
              ((refl, ground (arith, fits)), tt);
      })
      | inr full ↦ rw full h
    ]

operate-IsClean : (p : Pool) (o : Operation) → IsClean p → IsClean (operate p o)
unfolding operate encode
operate-IsClean p (dropping b) h = give_back-IsClean p b h
operate-IsClean p (encoding write) h =
    let rest : Pool = record p { buffers = drop_last p.buffers } in
    let clean : IsClean rest = record {
      few = omega (arith, h.few, length-drop_last p.buffers);
      reusable = All-drop_last p.max_capacity p.buffers h.reusable;
    } in
    elim (Bool-cases (write (popped p)).0) [
      | inl success ↦ rw (operate, encode, success) clean
      | inr failure ↦
          rw (operate, encode, failure) (give_back-IsClean rest (write (popped p)).1 clean)
    ]

operate_all-IsClean : (p : Pool) (os : List Operation) → IsClean p → IsClean (operate_all p os)
unfolding operate_all
operate_all-IsClean p [] h = h
operate_all-IsClean p (o ∷ os) h = operate_all-IsClean (operate p o) os (operate-IsClean p o h)

popped_empty : (p : Pool) → (popped p).bytes ≡ []
unfolding popped
popped_empty p = elim (Option-cases (last? p.buffers)) [
  | inl e ↦ rw (popped, e) refl
  | inr (b, e) ↦ rw (popped, e) refl
]

-- After any sequence of responses and of dropped leases, the buffers of a new pool that wait are
-- empty, at most as many and as large as it allows, and the next response begins with no byte of an
-- earlier one.
pub new_pool-IsClean :
    (max_buffers max_capacity : ℕ) (os : List Operation)
    → IsClean (operate_all (new_pool max_buffers max_capacity) os)
      × ((popped (operate_all (new_pool max_buffers max_capacity) os)).bytes ≡ [])
unfolding new_pool
new_pool-IsClean max_buffers max_capacity os =
    let empty : Pool = record {
      buffers = [];
      max_buffers = max_buffers;
      max_capacity = max_capacity;
    } in
    (
      operate_all-IsClean empty os (record { few = omega arith; reusable = tt }),
      popped_empty (operate_all empty os),
    )
