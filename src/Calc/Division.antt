-- ===== src/Calc/Division.antt =====
-- The division of the calculator: which requests it cannot survive, and what it answers to the others.
use c10k.Base.{
  ℕ, zero, suc, ◌+◌, ◌-◌, ◌*◌, ◌/◌, ◌%◌, ◌^◌, ◌≤◌, ◌<◌, ◌≡◌, refl, sym, ap, ◌⊎◌, inl, inr, true,
  false, none, some, List, [], ◌∷◌, length, leb, ◌==◌, Bool-cases, arith,
}
use native.Mathlib.Nat.{zero-div, div-add-mod, mod-lt, div-le_self, div-lt_self, div-one}
use c10k.Base.Memory.{◌>>=◌}
use c10k.Base.Int.{ℤ, pos, negsuc, sub_ℕ}
use c10k.Calc.{
  Fields, Libc, answer, bytes, is_int, checked, divide, compute, answer_of, calc_request,
}

abbrev pub magnitude : ℤ → ℕ
magnitude (pos n) = n
magnitude (negsuc n) = suc n

-- The number of magnitude `m` with the sign of the quotient of `a` and `b`.
abbrev pub signed : (a b : ℤ) → (m : ℕ) → ℤ
signed (pos _) (pos _) m = pos m
signed (pos _) (negsuc _) m = sub_ℕ 0 m
signed (negsuc _) (pos _) m = sub_ℕ 0 m
signed (negsuc _) (negsuc _) m = pos m

-- The divisor is 0, or the dividend is the least `int` and the divisor -1.
abbrev pub Faults : (a b : ℤ) → Type 0
Faults a b = (b ≡ pos 0) ⊎ ((a ≡ negsuc (2 ^ 31 - 1)) × (b ≡ negsuc 0))

-- A fault, or the quotient towards zero.
abbrev Divided : (a b : ℤ) → Type 0
Divided a b =
    (Faults a b × (divide a b ≡ none))
    ⊎ ((m r : ℕ) × (divide a b ≡ some (signed a b m))
        × (magnitude a ≡ magnitude b * m + r)
        × (r < magnitude b))

add-one : (k : ℕ) → k + 1 ≡ suc k
add-one k = omega arith

checked_pos : (m : ℕ) → m < 2 ^ 31 → checked (sub_ℕ m 0) ≡ some (pos m)
unfolding checked
checked_pos m h = ground arith

checked_big : checked (sub_ℕ (2 ^ 31) 0) ≡ none
unfolding checked
checked_big = refl

checked_neg : (m : ℕ) → m ≤ 2 ^ 31 → checked (sub_ℕ 0 m) ≡ some (sub_ℕ 0 m)
unfolding checked
checked_neg m h = ground arith

-- The quotient and the remainder of the magnitudes.
parts : (n k : ℕ) → (n ≡ suc k * (n / suc k) + n % suc k) × (n % suc k < suc k)
parts n k = (sym (div-add-mod n (suc k)), mod-lt n (omega arith))

divide-Divided : (a b : ℤ) → is_int a ≡ true → is_int b ≡ true → Divided a b
unfolding divide
divide-Divided (pos n) (pos zero) x y = inl (inl refl, refl)
divide-Divided (negsuc n) (pos zero) x y = inl (inl refl, refl)
divide-Divided (pos n) (pos (suc k)) x y =
    let (whole, small) = parts n k in
    let nz : (suc k == 0) ≡ false = ground arith in
    let fits : n / suc k < 2 ^ 31 = ground (arith, div-le_self n (suc k)) in
    inr
      (n / suc k, n % suc k, rw (nz, zero-div (suc k)) (checked_pos (n / suc k) fits), whole, small)
divide-Divided (negsuc n) (pos (suc k)) x y =
    let (whole, small) = parts (suc n) k in
    let nz : (suc k == 0) ≡ false = ground arith in
    let fits : suc n / suc k ≤ 2 ^ 31 = ground (arith, div-le_self (suc n) (suc k)) in
    inr (
      suc n / suc k,
      suc n % suc k,
      rw (nz, zero-div (suc k)) (checked_neg (suc n / suc k) fits),
      whole,
      small,
    )
divide-Divided (pos n) (negsuc k) x y =
    let (whole, small) = parts n k in
    let fits : n / suc k ≤ 2 ^ 31 = ground (arith, div-le_self n (suc k)) in
    inr (
      n / suc k,
      n % suc k,
      rw (add-one k, zero-div (suc k)) (checked_neg (n / suc k) fits),
      whole,
      small,
    )
divide-Divided (negsuc n) (negsuc zero) x y =
    let (whole, small) = parts (suc n) 0 in
    let one : suc n / 1 ≡ suc n = div-one (suc n) in
    elim (Bool-cases (n == 2 ^ 31 - 1)) [
      | inl least ↦
          let at : n ≡ 2 ^ 31 - 1 = ground arith in
          inl (inr (ap negsuc at, refl), rw (zero-div 1, one, at) checked_big)
      | inr other ↦
          let fits : suc n / 1 < 2 ^ 31 = rw one (ground arith) in
          inr (suc n / 1, suc n % 1, rw (zero-div 1) (checked_pos (suc n / 1) fits), whole, small)
    ]
divide-Divided (negsuc n) (negsuc (suc k)) x y =
    let (whole, small) = parts (suc n) (suc k) in
    let less : suc n / suc (suc k) < suc n = div-lt_self (omega arith) (omega arith) in
    let fits : suc n / suc (suc k) < 2 ^ 31 = ground (arith, less) in
    inr (
      suc n / suc (suc k),
      suc n % suc (suc k),
      rw (add-one (suc k), zero-div (suc (suc k))) (checked_pos (suc n / suc (suc k)) fits),
      whole,
      small,
    )

-- A request of less than 127 bytes that begins with `c`, whose four fields are read, with the operator
-- `/` and two numbers that `atoi` reads as an `int` each: `calc_request` is undefined, and in that
-- case the divisor is 0, or the dividend is the least `int` and the divisor -1; or it answers with
-- the quotient towards zero, whose magnitude leaves a remainder below the magnitude of the
-- divisor and whose sign is that of the division.
pub calc_request-divide :
    (libc : Libc) (rest : List ℕ) (f : Fields)
    → length rest < 126
    → libc.sscanf (b'c' ∷ rest) ≡ some f
    → f.operator ≡ b'/'
    → is_int (libc.atoi f.num_buf_1) ≡ true
    → is_int (libc.atoi f.num_buf_2) ≡ true
    → let a = libc.atoi f.num_buf_1 in
      let b = libc.atoi f.num_buf_2 in
      (((b ≡ pos 0) ⊎ ((a ≡ negsuc (2 ^ 31 - 1)) × (b ≡ negsuc 0)))
        × (calc_request libc (bytes (b'c' ∷ rest)) ≡ none))
      ⊎ ((m r : ℕ) × (calc_request libc (bytes (b'c' ∷ rest))
            ≡ some (answer a b'/' b (signed a b m) ∷ []))
          × (magnitude a ≡ magnitude b * m + r)
          × (r < magnitude b))
unfolding calc_request answer_of compute
calc_request-divide libc rest f short parsed op x y =
    let t : leb 127 (suc (length rest)) ≡ false = ground arith in
    elim (divide-Divided (libc.atoi f.num_buf_1) (libc.atoi f.num_buf_2) x y) [
      | inl (why, fault) ↦ inl (why, rw (t, parsed, ◌>>=◌, op, fault))
      | inr (m, r, divides, whole, small) ↦
          inr (m, r, rw (t, parsed, ◌>>=◌, op, divides), whole, small)
    ]
