-- ===== src/Queue.antt =====
-- src/unix/queue.c, include/unix/queue.h: a growable ring of pointers.
-- A `void*` is a number and NULL is 0. The block of `_data` is part of the value of a queue:
-- each `queue` of the program is the only user of its block.
pub mod Represents
pub mod Resize
pub mod Push
pub mod Run
mod Tests
use c10k.Base.{
  ℕ, zero, suc, ◌+◌, ◌-◌, ◌*◌, ◌/◌, ◌^◌, bit_and, Bool, Option, none, some, [], ltb, leb, ◌==◌,
  if◌then◌else◌,
}
use c10k.Base.Memory.{◌>>=◌, Block, Malloc, allocate, load, store}

-- `struct queue`. The four `long`s never leave the range of `Represents`, so none is negative.
pub record Queue : Type 0 where
  pub front : ℕ
  pub back : ℕ
  pub size : ℕ
  pub range_mask : ℕ
  pub cells : Block ℕ

abbrev pub null : ℕ
null = 0

abbrev pub default_size : ℕ
default_size = 8

-- The loop of `MSB`: it stops at the first bit of `number` from the top, or at bit 0. `number` is
-- the bit pattern of the `long`.
msb_loop : (number val msb : ℕ) → ℕ
msb_loop number val zero = zero
msb_loop number val (suc m) = if bit_and number val == 0 then msb_loop number (val / 2) m else suc m

pub msb : ℕ → ℕ
msb number = msb_loop number (2 ^ 63) 63

-- `1 << n` is a shift of an `int`: undefined unless `2 ^ n` is an `int`.
pub shift_one : ℕ → Option ℕ
shift_one n = if ltb n 31 then some (2 ^ n) else none

module _ (malloc : Malloc) where
  unfoldable pub create : Queue
  create = record {
    front = 0;
    back = 0;
    size = 0;
    cells = allocate malloc 8 default_size;
    range_mask = default_size - 1;
  }

unfoldable pub is_empty : Queue → Bool
is_empty q = q.size == 0

-- The value, and the queue after the call. `_size <= 0` is `_size == 0`.
unfoldable pub next : Queue → Option (ℕ × Queue)
next q = if q.size == 0 then some (null, q) else do
  v ← load q.cells q.front
  some (v, record q { front = bit_and (q.front + 1) q.range_mask; size = q.size - 1 })

-- `for (; i < move_size; i++) new_data[i] = q_next(q)`, with `rounds` left.
move : (rounds i : ℕ) → Block ℕ → Queue → Option (Block ℕ × Queue)
move zero i new_data q = some (new_data, q)
move (suc rounds) i new_data q = do
  (v, q') ← next q
  new_data' ← store new_data i v
  move rounds (i + 1) new_data' q'

-- The power of two that `q_resize` takes for `new_size`.
pub round_up : ℕ → Option ℕ
round_up new_size = do
  power ← shift_one (msb new_size)
  shift_one (if ltb power new_size then msb new_size + 1 else msb new_size)

module _ (malloc : Malloc) where
  pub resize : Queue → ℕ → Option Queue
  resize q new_size = do
    capacity ← round_up new_size
    if capacity == q.range_mask + 1 then some q else do
      let move_size = if ltb q.size capacity then q.size else capacity
      (new_data, q') ← move move_size 0 (allocate malloc 8 capacity) q
      some (record q' {
        cells = new_data;
        size = move_size;
        range_mask = capacity - 1;
        front = 0;
        back = bit_and move_size (capacity - 1);
      })

  unfoldable pub push : Queue → ℕ → Option Queue
  push q val = do
    q' ← if leb (q.range_mask + 1) q.size then resize q ((q.range_mask + 1) * 2) else some q
    data' ← store q'.cells q'.back val
    some (record q' {
      cells = data';
      size = q'.size + 1;
      back = bit_and (q'.back + 1) q'.range_mask;
    })

-- The block is given back: nothing can be read from it any more.
pub destroy : Queue → Queue
destroy q = record q { cells = [] }
