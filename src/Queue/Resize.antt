-- ===== src/Queue/Resize.antt =====
-- `q_resize`: the capacity that it picks, and the ring that it leaves.
use c10k.Base.{
  ℕ, zero, suc, ◌+◌, ◌-◌, ◌*◌, ◌/◌, ◌%◌, ◌^◌, ◌≤◌, ◌<◌, min, bit_and, ◌≡◌, refl, ap, sym, subst,
  ◌∙◌, false, Option, none, some, List, [], ◌∷◌, length, get_elem?, set, take, length-take,
  length-replicate, length-set, get_elem?-set_self, get_elem?-set_ne, arith, dec_lt, ℕ_discrete,
  ==_iff, lt→ltb, ltb, ◌==◌, if◌then◌else◌,
}
use c10k.Base.Bits.{and_mask, bit, bit_of_lt, and_power}
use c10k.Base.Memory.{Block, Malloc, Gives, allocate, allocate-eq-replicate, store-eq-some}
use native.Mathlib.Nat.{pow-suc, one-le-pow, pow-le-pow_right, mod-eq_of_lt}
use native.Mathlib.Numerals.{add-one}
use c10k.Queue.{Queue, msb_loop, msb, shift_one, round_up, move, resize}
use c10k.Queue.Represents.{Represents, Window, next-cons}

-- `MSB` of a number with its top bit at `k`.
bit_top : (k n : ℕ) → 2 ^ k ≤ n → n < 2 ^ suc k → bit n k ≡ 1
unfolding bit
bit_top zero n p q = omega arith
bit_top (suc k) n p q =
    bit_top k (n / 2) (omega (arith, pow-suc 2 k)) (omega (arith, pow-suc 2 k, pow-suc 2 (suc k)))

msb_loop_top : (m k n : ℕ) → 2 ^ k ≤ n → n < 2 ^ suc k → k ≤ m → msb_loop n (2 ^ m) m ≡ k
unfolding msb_loop
msb_loop_top zero k n p q le = omega arith
msb_loop_top (suc m) k n p q le = elim (dec_lt k (suc m)) [
  | yes below ↦ rw (clear below, halved) ((msb_loop_top m k n p q (omega arith)))
  | no top ↦ rw (hit (omega arith)) (omega arith)
]
  where
    halved : 2 ^ suc m / 2 ≡ 2 ^ m
    halved = omega (arith, pow-suc 2 m)

    clear : k < suc m → bit_and n (2 ^ suc m) ≡ 0
    clear below = rw (and_power, bit_of_lt (suc k) n (suc m) q below) (omega arith)

    hit : k ≡ suc m → (bit_and n (2 ^ suc m) == 0) ≡ false
    hit e = ground (
      arith,
      and_power (suc m) n,
      bit_top (suc m) n (rw (← e) p) (rw (← e) q),
      one-le-pow (suc m) 2,
    )

pub msb_lem : (k n : ℕ) → k ≤ 63 → 2 ^ k ≤ n → n < 2 ^ suc k → msb n ≡ k
unfolding msb
msb_lem k n le p q = msb_loop_top 63 k n p q le

pub shift_one-eq-some : (k : ℕ) → k ≤ 30 → shift_one k ≡ some (2 ^ k)
unfolding shift_one
shift_one-eq-some k h = ground arith

-- `q_resize` takes the least power of two that is at least `new_size`.
pub round_up-eq-power : (k n : ℕ) → k ≤ 30 → n ≤ 2 ^ k → 2 ^ k < 2 * n → round_up n ≡ some (2 ^ k)
unfolding round_up
round_up-eq-power zero n le p q =
    rw (msb_lem 0 n (omega arith) (omega arith) (omega arith)) (ground (arith, shift_one-eq-some 0))
round_up-eq-power (suc j) n le p q = elim (dec_lt n (2 ^ suc j)) [
  | yes below ↦
      let above : 2 ^ j < n = omega (arith, pow-suc 2 j) in
      rw
        (
          msb_lem j n (omega arith) (omega arith) below,
          shift_one-eq-some j (omega arith),
          lt→ltb (2 ^ j) n above,
          add-one,
        )
        (shift_one-eq-some (suc j) le)
  | no top ↦
      let fit : ltb (2 ^ suc j) n ≡ false = ground arith in
      rw
        (
          msb_lem (suc j) n (omega arith) (omega arith) (omega (arith, pow-suc 2 (suc j))),
          shift_one-eq-some (suc j) le,
          fit,
        )
        (shift_one-eq-some (suc j) le)
]

-- Where the top bit of a number from `2 ^ 31` on stands.
record Top (m n : ℕ) : Type 0 where
  at : ℕ
  high : 31 ≤ at
  below : at < m
  lower : 2 ^ at ≤ n
  upper : n < 2 ^ suc at

Top-bit : (m n : ℕ) → 2 ^ 31 ≤ n → n < 2 ^ m → Top m n
Top-bit zero n p q = absurd (omega arith)
Top-bit (suc m) n p q = elim (dec_lt n (2 ^ m)) [
  | yes small ↦
      let t = Top-bit m n p small in
      record {
        at = t.at;
        high = t.high;
        below = omega (arith, t.below);
        lower = t.lower;
        upper = t.upper;
      }
  | no big ↦ record { at = m; high = high; below = omega arith; lower = omega arith; upper = q }
]
  where
    high : 31 ≤ m
    high = elim (dec_lt m 31) [
      | yes low ↦
          let e : 2 ^ suc m ≤ 2 ^ 31 = pow-le-pow_right {n = 2} (omega arith) low in
          absurd (omega arith)
      | no h ↦ omega arith
    ]

-- A positive `long` of more than `2 ^ 30` cells as the new size makes `q_resize` shift an `int` out of its range.
pub resize_overflow :
    (malloc : Malloc) (q : Queue) (new_size : ℕ)
    → 2 ^ 30 < new_size
    → new_size < 2 ^ 63
    → resize malloc q new_size ≡ none
unfolding resize round_up shift_one
resize_overflow malloc q new_size p q' = elim (dec_lt new_size (2 ^ 31)) [
  | yes low ↦ rw (msb_lem 30 new_size (omega arith) (omega arith) low, lt→ltb (2 ^ 30) new_size p)
  | no big ↦
      let t = Top-bit 63 new_size (omega arith) q' in
      let far : ltb t.at 31 ≡ false = ground (arith, t.high) in
      rw (msb_lem t.at new_size (omega (arith, t.below)) t.lower t.upper, far)
]

-- Consecutive cells from index `i` on hold `xs`.
abbrev Linear : Block ℕ → ℕ → List ℕ → Type 0
Linear cells i [] = Unit
Linear cells i (x ∷ xs) = (get_elem? cells i ≡ some (some x)) × Linear cells (i + 1) xs

Linear-Window :
    (cells : Block ℕ) (cap i : ℕ) (xs : List ℕ)
    → i + length xs ≤ cap
    → Linear cells i xs
    → Window cells cap (i % cap) xs
Linear-Window cells cap i [] h l = tt
Linear-Window cells cap i (x ∷ xs) h l =
    rw (mod-eq_of_lt {n = i} {m = cap} (omega arith))
      (l.0, Linear-Window cells cap (i + 1) xs (omega arith) l.1)

-- What the loop of `q_resize` leaves: `xs` in the cells from `i` on, and the cells below kept.
record Moved (cells : Block ℕ) (i : ℕ) (xs : List ℕ) (out : Option (Block ℕ × Queue)) : Type 0 where
  cells' : Block ℕ
  queue' : Queue
  returns : out ≡ some (cells', queue')
  same_length : length cells' ≡ length cells
  kept : (j : ℕ) → j < i → get_elem? cells' j ≡ get_elem? cells j
  moved : Linear cells' i xs

move-Moved :
    (n i : ℕ) (cells : Block ℕ) (q : Queue) (xs : List ℕ)
    → Represents q xs
    → n ≤ length xs
    → i + n ≤ length cells
    → Moved cells i (take n xs) (move n i cells q)
unfolding move
move-Moved zero i cells q xs r h room = record {
  cells' = cells;
  queue' = q;
  returns = refl;
  same_length = refl;
  kept = λ j p. refl;
  moved = tt;
}
move-Moved (suc n) i cells q [] r h room = absurd (omega arith)
move-Moved (suc n) i cells q (x ∷ xs) r h room =
    let (q', runs, r', same) = next-cons r in
    let new = set cells i (some x) in
    let rest =
      move-Moved n (i + 1) new q' xs r' (omega arith)
        (omega (arith, length-set cells i (some x))) in
    record {
      cells' = rest.cells';
      queue' = rest.queue';
      returns = rw (runs, store-eq-some cells i x (omega arith)) rest.returns;
      same_length = rest.same_length ∙ length-set cells i (some x);
      kept = λ j p. rest.kept j (omega arith) ∙ get_elem?-set_ne cells (some x) (omega arith);
      moved = (
        rest.kept i (omega arith) ∙ get_elem?-set_self cells i (some x) (omega arith),
        rest.moved,
      );
    }

pub take_all : (xs : List ℕ) (n : ℕ) → length xs ≤ n → take n xs ≡ xs
take_all [] zero h = refl
take_all [] (suc n) h = refl
take_all (x ∷ xs) zero h = absurd (omega arith)
take_all (x ∷ xs) (suc n) h = ap (λ l. x ∷ l) (take_all xs n (omega arith))

take-min : (xs : List ℕ) (n m : ℕ) → n ≡ min (length xs) m → take n xs ≡ take m xs
take-min xs n m e = elim (dec_lt m (length xs)) [
  | yes p ↦ ap (λ k. take k xs) (omega arith)
  | no p ↦ take_all xs n (omega arith) ∙ sym (take_all xs m (omega arith))
]

-- The ring that `q_resize` leaves, with its new block and `size` elements.
abbrev rebuilt : Block ℕ → (size k : ℕ) → Queue
rebuilt cells size k = record {
  cells = cells;
  size = size;
  range_mask = 2 ^ k - 1;
  front = 0;
  back = bit_and size (2 ^ k - 1);
}

rebuilt-Represents :
    (cells : Block ℕ) (size k : ℕ) (xs : List ℕ)
    → k ≤ 30
    → length cells ≡ 2 ^ k
    → size ≡ min (length xs) (2 ^ k)
    → Linear cells 0 (take (2 ^ k) xs)
    → Represents (rebuilt cells size k) (take (2 ^ k) xs)
rebuilt-Represents cells size k xs le room e linear = record {
  order = k;
  order_le = le;
  mask = refl;
  room = room;
  positive = pos;
  front_in = pos;
  size_eq = omega (arith, length-take (2 ^ k) xs);
  fits = omega (arith, length-take (2 ^ k) xs);
  back_eq = and_mask k size ∙ ap (λ n. n % 2 ^ k) (omega (arith, length-take (2 ^ k) xs));
  window =
      subst (λ h. Window cells (2 ^ k) h (take (2 ^ k) xs)) (mod-eq_of_lt pos)
        (Linear-Window cells (2 ^ k) 0 (take (2 ^ k) xs) (omega (arith, length-take (2 ^ k) xs))
          linear);
}
  where
    pos : 0 < 2 ^ k
    pos = one-le-pow k 2 (omega arith)

module _ (malloc : Malloc) (gives : Gives malloc (2 ^ 33)) where
  allocated : (k : ℕ) → k ≤ 30 → length (allocate {A = ℕ} malloc 8 (2 ^ k)) ≡ 2 ^ k
  allocated k le =
      let small : 2 ^ k ≤ 2 ^ 30 = pow-le-pow_right {n = 2} (omega arith) le in
      rw (allocate-eq-replicate {A = ℕ} malloc 8 (2 ^ k) (gives (2 ^ k * 8) (omega arith)))
        (length-replicate (2 ^ k) none)

  -- With memory, and if `2 ^ k` is the least power of two that is at least `new_size` and `k` is at
  -- most 30, `q_resize` to `new_size` leaves a ring of `2 ^ k` cells, which holds the oldest elements that fit it; the newest beyond are dropped.
  pub resize-Represents :
      {q : Queue} {xs : List ℕ} (new_size k : ℕ)
      → Represents q xs
      → k ≤ 30
      → new_size ≤ 2 ^ k
      → 2 ^ k < 2 * new_size
      → (q' : Queue) × (resize malloc q new_size ≡ some q')
        × Represents q' (take (2 ^ k) xs)
        × (q'.range_mask + 1 ≡ 2 ^ k)
  unfolding resize
  resize-Represents {q} {xs} new_size k r le above below =
      rw (round_up-eq-power k new_size le above below)
        (elim (ℕ_discrete (2 ^ k) (q.range_mask + 1)) [
          | yes e ↦
              let fit : length xs ≤ 2 ^ k = omega (arith, r.fits, r.mask, r.positive) in
              rw ((==_iff (2 ^ k) (q.range_mask + 1)).1 e, take_all xs (2 ^ k) fit)
                (q, refl, r, sym e)
          | no ne ↦
              let size = if ltb q.size (2 ^ k) then q.size else 2 ^ k in
              let e : size ≡ min (length xs) (2 ^ k) = ground (arith, r.size_eq) in
              let m =
                move-Moved size 0 (allocate malloc 8 (2 ^ k)) q xs r (omega arith)
                  (omega (arith, allocated k le)) in
              let other : (2 ^ k == q.range_mask + 1) ≡ false = ground arith in
              rw (other, m.returns)
                (
                  rebuilt m.cells' size k,
                  refl,
                  rebuilt-Represents m.cells' size k xs le (m.same_length ∙ allocated k le) e
                      (rw (take-min xs size (2 ^ k) e) at m.moved),
                  omega (arith, one-le-pow k 2),
                )
        ])
