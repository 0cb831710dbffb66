-- ===== src/Base/Bits.antt =====
-- Bits of a native number: what `&`, `|`, `~` and a one-bit mask do to each bit. The native
-- operations are recursions on binary digits; `bit` reads one digit.
use Prim.Native.Nat.{
  ℕ, zero, suc, ◌+◌, ◌-◌, ◌*◌, ◌/◌, ◌%◌, ◌^◌, ◌≤◌, ◌<◌, min, max, bit_and, bit_or, digits,
  bit_and-bitwise, bit_or-bitwise,
}
use mathlib.Core.Path.{◌≡◌, refl, ap, ◌∙◌}
use mathlib.Core.Logic.{◌≢◌}
use native.Mathlib.Nat.{pow-suc, one-le-pow}
use native.Mathlib.Omega.{arith}

-- Digit `i` of `a`, 0 or 1.
unfoldable pub bit : ℕ → ℕ → ℕ
bit a zero = a % 2
bit a (suc i) = bit (a / 2) i

pub bit-le-one : (a i : ℕ) → bit a i ≤ 1
unfolding bit
bit-le-one a zero = omega arith
bit-le-one a (suc i) = bit-le-one (a / 2) i

pub bit-zero : (i : ℕ) → bit 0 i ≡ 0
unfolding bit
bit-zero zero = refl
bit-zero (suc i) = bit-zero i

-- The recursion that a native operation stands for does not depend on its fuel.
spare_fuel :
    (z : ℕ → ℕ) (f : ℕ → ℕ → ℕ) (n m a b : ℕ) → a ≤ n → a ≤ m → digits z f n a b ≡ digits z f m a b
spare_fuel z f zero zero a b p q = refl
spare_fuel z f zero (suc m) zero b p q = refl
spare_fuel z f zero (suc m) (suc a) b p q = absurd (omega arith)
spare_fuel z f (suc n) zero zero b p q = refl
spare_fuel z f (suc n) zero (suc a) b p q = absurd (omega arith)
spare_fuel z f (suc n) (suc m) zero b p q = refl
spare_fuel z f (suc n) (suc m) (suc a) b p q =
    ap (λ r. r * 2 + f (suc a % 2) (b % 2))
      (spare_fuel z f n m (suc a / 2) (b / 2) (omega arith) (omega arith))

pub and_lowest : (a b : ℕ) → bit_and a b ≡ bit_and (a / 2) (b / 2) * 2 + min (a % 2) (b % 2)
and_lowest zero b = omega (arith, bit_and-bitwise 0 b, bit_and-bitwise 0 (b / 2))
and_lowest (suc a) b = omega (
  arith,
  bit_and-bitwise (suc a) b,
  bit_and-bitwise (suc a / 2) (b / 2),
  spare_fuel (λ _. 0) min a (suc a / 2) (suc a / 2) (b / 2) (omega arith) (omega arith),
)

pub or_lowest : (a b : ℕ) → bit_or a b ≡ bit_or (a / 2) (b / 2) * 2 + max (a % 2) (b % 2)
or_lowest zero b = omega (arith, bit_or-bitwise 0 b, bit_or-bitwise 0 (b / 2))
or_lowest (suc a) b = omega (
  arith,
  bit_or-bitwise (suc a) b,
  bit_or-bitwise (suc a / 2) (b / 2),
  spare_fuel (λ y. y) max a (suc a / 2) (suc a / 2) (b / 2) (omega arith) (omega arith),
)

pub bit-and : (a b i : ℕ) → bit (bit_and a b) i ≡ min (bit a i) (bit b i)
unfolding bit
bit-and a b zero = omega (arith, and_lowest a b)
bit-and a b (suc i) = ap (λ n. bit n i) (omega (arith, and_lowest a b)) ∙ bit-and (a / 2) (b / 2) i

pub bit-or : (a b i : ℕ) → bit (bit_or a b) i ≡ max (bit a i) (bit b i)
unfolding bit
bit-or a b zero = omega (arith, or_lowest a b)
bit-or a b (suc i) = ap (λ n. bit n i) (omega (arith, or_lowest a b)) ∙ bit-or (a / 2) (b / 2) i

-- A one-bit mask.
pub bit-power_self : (m : ℕ) → bit (2 ^ m) m ≡ 1
unfolding bit
bit-power_self zero = refl
bit-power_self (suc m) = ap (λ n. bit n m) (omega (arith, pow-suc 2 m)) ∙ bit-power_self m

pub bit-power_ne : (m i : ℕ) → m ≢ i → bit (2 ^ m) i ≡ 0
unfolding bit
bit-power_ne zero zero ne = absurd (ne refl)
bit-power_ne zero (suc i) ne = bit-zero i
bit-power_ne (suc m) zero ne = omega (arith, pow-suc 2 m)
bit-power_ne (suc m) (suc i) ne =
    ap (λ n. bit n i) (omega (arith, pow-suc 2 m)) ∙ bit-power_ne m i (λ e. ne (ap suc e))

-- `~x` in a word of `w` bits.
abbrev pub complement : ℕ → ℕ → ℕ
complement w x = 2 ^ w - 1 - x

pub bit-complement : (w x i : ℕ) → x < 2 ^ w → i < w → bit (complement w x) i ≡ 1 - bit x i
unfolding bit
bit-complement zero x i h lt = absurd (omega arith)
bit-complement (suc w) x zero h lt = omega (arith, pow-suc 2 w)
bit-complement (suc w) x (suc i) h lt =
    ap (λ n. bit n i) (omega (arith, pow-suc 2 w))
    ∙ bit-complement w (x / 2) i (omega (arith, pow-suc 2 w)) (omega arith)

-- A number below `2 ^ w` has no digit from `w` on.
pub bit_of_lt : (w a i : ℕ) → a < 2 ^ w → w ≤ i → bit a i ≡ 0
unfolding bit
bit_of_lt zero a i h le = ap (λ n. bit n i) (omega arith) ∙ bit-zero i
bit_of_lt (suc w) a zero h le = absurd (omega arith)
bit_of_lt (suc w) a (suc i) h le = bit_of_lt w (a / 2) i (omega (arith, pow-suc 2 w)) (omega arith)

and_zero_fuel : (n a : ℕ) → a ≤ n → bit_and a 0 ≡ 0
and_zero_fuel n zero h = refl
and_zero_fuel zero (suc a) h = absurd (omega arith)
and_zero_fuel (suc n) (suc a) h =
    omega (arith, and_lowest (suc a) 0, and_zero_fuel n (suc a / 2) (omega arith))

pub and_zero : (a : ℕ) → bit_and a 0 ≡ 0
and_zero a = and_zero_fuel a a (omega arith)

-- A mask of `k` low bits is the remainder by `2 ^ k`.
double_power : (q k : ℕ) → q * 2 ^ suc k ≡ q * 2 ^ k * 2
double_power q k = omega (arith, ap (λ (t : ℕ). q * t) (pow-suc 2 k))

mod_power : (k a : ℕ) → a % 2 ^ suc k ≡ a / 2 % 2 ^ k * 2 + a % 2
mod_power k a = rw (pow-suc 2 k) (grind (arith, one-le-pow k 2))

pub and_mask : (k a : ℕ) → bit_and a (2 ^ k - 1) ≡ a % 2 ^ k
and_mask zero a = omega (arith, and_zero a)
and_mask (suc k) a = ground (
  arith,
  and_lowest a (2 ^ suc k - 1),
  pow-suc 2 k,
  one-le-pow k 2,
  and_mask k (a / 2),
  mod_power k a,
)

-- A one-bit mask leaves that bit.
pub and_power : (m a : ℕ) → bit_and a (2 ^ m) ≡ bit a m * 2 ^ m
unfolding bit
and_power zero a = omega (arith, and_lowest a 1, and_zero (a / 2))
and_power (suc m) a = ground (
  arith,
  and_lowest a (2 ^ suc m),
  pow-suc 2 m,
  and_power m (a / 2),
  double_power (bit (a / 2) m) m,
)

and_le_fuel : (n a b : ℕ) → a ≤ n → bit_and a b ≤ a
and_le_fuel n zero b h = omega (arith, bit_and-bitwise 0 b)
and_le_fuel zero (suc a) b h = absurd (omega arith)
and_le_fuel (suc n) (suc a) b h =
    omega (arith, and_lowest (suc a) b, and_le_fuel n (suc a / 2) (b / 2) (omega arith))

pub and-le : (a b : ℕ) → bit_and a b ≤ a
and-le a b = and_le_fuel a a b (omega arith)

pub or-lt : (w a b : ℕ) → a < 2 ^ w → b < 2 ^ w → bit_or a b < 2 ^ w
or-lt zero a b p q = ground (arith, or_lowest 0 0)
or-lt (suc w) a b p q = omega (
  arith,
  or_lowest a b,
  pow-suc 2 w,
  or-lt w (a / 2) (b / 2) (omega (arith, pow-suc 2 w)) (omega (arith, pow-suc 2 w)),
)
