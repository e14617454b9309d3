-- ===== src/RingBuffer.antt =====
-- libutils/ring_buffer.c: a circular buffer that keeps the last `capacity` items.
-- An operation that calls the destroy function returns the pointers it destroys, in order.
pub mod Contents
pub mod Iterate
mod Tests
use libntech.Prelude.{
  ℕ, zero, suc, ◌+◌, ◌-◌, ◌%◌, max, Bool, true, false, ◌&&◌, not, Option, none, some, List, [], ◌∷◌,
  if◌then◌else◌, ◌==◌, ltb, length, set, Ptr, null, read, calloc, add_size, sub_size,
}

-- `struct RingBuffer_`; `has_destroy` says whether the destroy function is given.
pub record RingBuffer : Type 0 where
  pub copy : Option (Ptr → Ptr)
  pub has_destroy : Bool
  pub items : List Ptr
  pub capacity : ℕ
  pub end : ℕ
  pub len : ℕ

pub new : ℕ → Option (Ptr → Ptr) → Bool → RingBuffer
new capacity copy destroy = record {
  copy = copy;
  has_destroy = destroy;
  items = calloc capacity;
  capacity = max capacity 1;
  end = 0;
  len = 0;
}

-- `buf->copy ? buf->copy(item) : item`
abbrev pub stored : RingBuffer → Ptr → Ptr
stored b item = elim b.copy [ none ↦ item | some f ↦ f item ]

-- What RingBufferAppend destroys.
abbrev pub append_destroys : RingBuffer → List Ptr
append_destroys b =
    if not (read b.items b.end == null) && b.has_destroy then read b.items b.end ∷ [] else []

pub append : RingBuffer → Ptr → RingBuffer × List Ptr
append b item = (
  record b {
    items = set b.items b.end (stored b item);
    end = add_size b.end 1 % b.capacity;
    len = if ltb b.len b.capacity then add_size b.len 1 else b.len;
  },
  append_destroys b,
)

-- The loop of RingBufferClear over the slots from index `i` on, `n` of them.
clear_slots : ℕ → ℕ → List Ptr → List Ptr × List Ptr
clear_slots zero i d = (d, [])
clear_slots (suc n) i d =
    let x = read d i in
    let (d', gone) = clear_slots n (i + 1) (if x == null then d else set d i null) in
    (d', (if x == null then gone else x ∷ gone))

pub clear : RingBuffer → RingBuffer × List Ptr
unfolding clear_slots
clear b =
    let (d, gone) = (if b.has_destroy then clear_slots b.capacity 0 b.items else (b.items, [])) in
    (record b { items = d; end = 0; len = 0 }, gone)

pub buffer_length : RingBuffer → ℕ
buffer_length b = b.len

pub is_full : RingBuffer → Bool
is_full b = b.len == b.capacity

pub head : RingBuffer → Ptr
unfolding buffer_length
head b =
    if buffer_length b == 0
    then null
    else (if b.end == 0 then read b.items (b.capacity - 1) else read b.items (b.end - 1))

-- RingBufferDestroy on a buffer that is not NULL: what it destroys.
pub destroy : RingBuffer → List Ptr
unfolding clear
destroy b = (clear b).1

-- `struct RingBufferIterator_`
pub record Iterator : Type 0 where
  pub buf : RingBuffer
  pub num_read : ℕ

pub iterator : RingBuffer → Iterator
iterator b = record { buf = b; num_read = 0 }

-- The slot that RingBufferIteratorNext reads.
iterator_offset : Iterator → ℕ
unfolding is_full
iterator_offset it =
    if is_full it.buf then add_size it.buf.end it.num_read % it.buf.capacity else it.num_read

pub iterator_next : Iterator → Ptr × Iterator
unfolding iterator_offset
iterator_next it =
    if sub_size it.buf.len it.num_read == 0
    then (null, it)
    else (read it.buf.items (iterator_offset it), record it { num_read = add_size it.num_read 1 })
