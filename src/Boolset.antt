-- ===== src/Boolset.antt =====
-- src/unix/boolset.c, include/unix/boolset.h: a set of indices as bits in 64-bit words.
-- BOOLSET_TYPE is `unsigned long`, 8 bytes on the platforms of the program.
pub mod Words
pub mod Valid
pub mod Set
pub mod Foreach
mod Tests
use c10k.Base.{
  ℕ, zero, suc, ◌+◌, ◌*◌, ◌/◌, ◌%◌, ◌^◌, bit_and, bit_or, Bool, true, false, not, Option, none,
  some, [], ltb, ◌==◌, if◌then◌else◌,
}
use c10k.Base.Bits.{complement}
use c10k.Base.Memory.{◌>>=◌, Block, Malloc, allocate, load, store, fill, copy}

-- `boolset_t`
pub record Boolset : Type 0 where
  pub size : ℕ
  pub cells : Block ℕ

-- `sizeof(BOOLSET_TYPE)`
abbrev pub word_bytes : ℕ
word_bytes = 8

-- `sizeof(BOOLSET_TYPE) * 8`
abbrev pub word_bits : ℕ
word_bits = 64

-- Arithmetic on BOOLSET_TYPE wraps.
abbrev pub u64 : ℕ → ℕ
u64 n = n % 2 ^ 64

module _ (malloc : Malloc) where
  pub create : Option Boolset
  create = do
    zeroed ← fill 1 0 (allocate malloc word_bytes 1)
    some (record { size = 1; cells = zeroed })

  -- `memset` and `memcpy` count bytes; both counts are whole words.
  pub expand : Boolset → ℕ → Option Boolset
  expand set new_size = do
    let old_byte_size = u64 (set.size * word_bytes)
    let new_byte_size = u64 (new_size * word_bytes)
    let new_data = allocate malloc word_bytes (new_byte_size / word_bytes)
    zeroed ← fill (new_byte_size / word_bytes) 0 new_data
    copied ← copy (old_byte_size / word_bytes) zeroed set.cells
    some (record { size = new_size; cells = copied })

-- `(BOOLSET_TYPE) 1 << minor_index`
abbrev pub mask_of : ℕ → ℕ
mask_of minor_index = u64 (2 ^ minor_index)

-- The last two statements of `boolset_set`. (`temp`, above them, is never used.)
pub write_bit : Block ℕ → (major_index mask val : ℕ) → Option (Block ℕ)
write_bit cells major_index mask val = do
  word ← load cells major_index
  cleared ← store cells major_index (bit_and word (complement 64 mask))
  word' ← load cleared major_index
  store cleared major_index (bit_or word' (u64 (mask * val)))

-- `val` is the bit pattern of the `int`.
pub set : Malloc → Boolset → (index val : ℕ) → Option Boolset
set malloc b index val = do
  let major_index = index / word_bits
  let required_size = u64 (major_index + 1)
  b' ← if ltb b.size required_size then expand malloc b required_size else some b
  let minor_index = index % word_bits
  let flag = if val == 0 then 0 else 1
  cells' ← write_bit b'.cells major_index (mask_of minor_index) flag
  some (record b' { cells = cells' })

pub get : Boolset → ℕ → Option Bool
get b index = do
  word ← load b.cells (index / word_bits)
  some (not (bit_and word (mask_of (index % word_bits)) == 0))

-- The block is given back: nothing can be read from it any more.
unfoldable pub destroy : Boolset → Boolset
destroy b = record b { cells = [] }

-- `boolset_foreach`. The callback may change whatever `args` points to, the set itself too: `S` is
-- all that it can reach, and `set_of` finds the set in it.
module _ {ℓ} {S : Type ℓ} (set_of : S → Boolset) (callback : ℕ → S → Option S) where
  -- The inner loop, with `rounds` left. `value` was read before it began.
  pub foreach_bit : (rounds minor_index major_index value : ℕ) → S → Option S
  foreach_bit zero minor_index major_index value s = some s
  foreach_bit (suc rounds) minor_index major_index value s = do
    s' ←
        if bit_and value (mask_of minor_index) == 0
        then some s
        else callback (u64 (major_index * word_bytes * 8 + minor_index)) s
    foreach_bit rounds (minor_index + 1) major_index value s'

  -- The outer loop reads `size` and the words anew in each round. It takes fuel, since a callback
  -- that adds an index can make the set grow under it.
  pub foreach_word : (fuel major_index : ℕ) → S → Option S
  foreach_word zero major_index s = none
  foreach_word (suc fuel) major_index s = elim (ltb major_index (set_of s).size) [
    | false ↦ some s
    | true ↦ do
      value ← load (set_of s).cells major_index
      s' ← if value == 0 then some s else foreach_bit word_bits 0 major_index value s
      foreach_word fuel (major_index + 1) s'
  ]

  pub foreach : S → Option S
  foreach s = foreach_word ((set_of s).size + 1) 0 s
