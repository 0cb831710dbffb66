-- ===== src/Boolset/Words.antt =====
-- One word of a boolset: what `boolset_set` and `boolset_get` do to its bits.
use c10k.Base.{
  ℕ, suc, ◌-◌, ◌*◌, ◌^◌, ◌≤◌, ◌<◌, min, max, ◌⊎◌, inl, inr, bit_and, bit_or, ◌≡◌, ◌≢◌, Bool, false,
  not, arith, ◌==◌,
}
use c10k.Base.Bits.{
  bit, bit-le-one, bit-and, bit-or, bit-power_self, bit-power_ne, complement, bit-complement,
  and_power, and-le, or-lt, bit-zero,
}
use native.Mathlib.Nat.{
  pow-le-pow_right, pow-suc, one-le-pow, mod-eq_of_lt, mul-zero, mul-one, zero-mul,
}
use c10k.Boolset.{mask_of, u64}

-- The bit that stands for `minor` in a word, as a truth value.
abbrev pub is_set : ℕ → ℕ → Bool
is_set word minor = bit word minor == 1

pow-lt-word : (m : ℕ) → m < 64 → 2 ^ m < 2 ^ 64
pow-lt-word m h =
    let le : 2 ^ suc m ≤ 2 ^ 64 = pow-le-pow_right {n = 2} (omega arith) h in
    omega (arith, pow-suc 2 m, one-le-pow m 2)

pub mask_of-eq-power : (m : ℕ) → m < 64 → mask_of m ≡ 2 ^ m
mask_of-eq-power m h = mod-eq_of_lt (pow-lt-word m h)

bit-cases : (word m : ℕ) → (bit word m ≡ 0) ⊎ (bit word m ≡ 1)
bit-cases word m = ground (arith, bit-le-one word m)

-- The test of `boolset_get` and `boolset_foreach`.
pub test-eq-is_set : (word m : ℕ) → m < 64 → not (bit_and word (mask_of m) == 0) ≡ is_set word m
test-eq-is_set word m h = elim (bit-cases word m) [
  | inl e ↦ rw (mask_of-eq-power m h, and_power, e, zero-mul)
  | inr e ↦
      let p : (1 * 2 ^ m == 0) ≡ false = ground (arith, one-le-pow m 2) in
      rw (mask_of-eq-power m h, and_power, e, p)
]

-- The word that `boolset_set` leaves.
abbrev pub updated : (word m flag : ℕ) → ℕ
updated word m flag = bit_or (bit_and word (complement 64 (mask_of m))) (u64 (mask_of m * flag))

pub updated-lt : (word m flag : ℕ) → word < 2 ^ 64 → updated word m flag < 2 ^ 64
updated-lt word m flag h =
    or-lt 64 (bit_and word (complement 64 (mask_of m))) (u64 (mask_of m * flag))
      (omega (arith, and-le word (complement 64 (mask_of m)))) (omega arith)

-- Bit `j` of the second operand of `|`.
flag-bit : (m flag : ℕ) → m < 64 → (flag ≡ 0) ⊎ (flag ≡ 1) → u64 (mask_of m * flag) ≡ 2 ^ m * flag
flag-bit m flag h (inl e) = rw (e, mask_of-eq-power m h) (omega arith)
flag-bit m flag h (inr e) = rw (e, mask_of-eq-power m h) (omega (arith, pow-lt-word m h))

bit-flag_self : (m flag : ℕ) → m < 64 → (flag ≡ 0) ⊎ (flag ≡ 1) → bit (2 ^ m * flag) m ≡ flag
bit-flag_self m flag h (inl e) = rw (e, mul-zero, bit-zero)
bit-flag_self m flag h (inr e) = rw (e, mul-one, bit-power_self)

bit-flag_ne : (m flag j : ℕ) → m ≢ j → (flag ≡ 0) ⊎ (flag ≡ 1) → bit (2 ^ m * flag) j ≡ 0
bit-flag_ne m flag j ne (inl e) = rw (e, mul-zero, bit-zero)
bit-flag_ne m flag j ne (inr e) = rw (e, mul-one, bit-power_ne m j ne)

bit-updated :
    (word m flag j : ℕ)
    → m < 64
    → j < 64
    → (flag ≡ 0) ⊎ (flag ≡ 1)
    → bit (updated word m flag) j
      ≡ max (min (bit word j) (1 - bit (2 ^ m) j)) (bit (2 ^ m * flag) j)
bit-updated word m flag j h h' f = rw (
  flag-bit m flag h f,
  mask_of-eq-power m h,
  bit-or,
  bit-and,
  bit-complement 64 (2 ^ m) j (pow-lt-word m h) h',
)

pub updated_self :
    (word m flag : ℕ) → m < 64 → (flag ≡ 0) ⊎ (flag ≡ 1) → bit (updated word m flag) m ≡ flag
updated_self word m flag h f =
    omega (arith, bit-updated word m flag m h h f, bit-power_self m, bit-flag_self m flag h f)

pub updated_ne :
    (word m flag j : ℕ)
    → m < 64
    → j < 64
    → (flag ≡ 0) ⊎ (flag ≡ 1)
    → m ≢ j
    → bit (updated word m flag) j ≡ bit word j
updated_ne word m flag j h h' f ne = omega (
  arith,
  bit-updated word m flag j h h' f,
  bit-power_ne m j ne,
  bit-flag_ne m flag j ne f,
  bit-le-one word j,
)
