-- ===== src/Queue/Push.antt =====
-- `q_push`: a pointer is added behind the others, in a ring that grows when it is full.
use c10k.Base.{
  ℕ, suc, ◌+◌, ◌*◌, ◌%◌, ◌^◌, ◌<◌, bit_and, ◌≡◌, refl, ap, subst, ◌∙◌, true, false, none, some,
  List, [], ◌∷◌, ◌++◌, length, length-append, length-set, set, arith, dec_lt, leb,
}
use c10k.Base.Bits.{and_mask}
use c10k.Base.Memory.{Malloc, Gives, store, store-eq-some}
use native.Mathlib.Nat.{pow-suc, mod-add-mod, mod-lt, pow-le-pow_right}
use c10k.Queue.{Queue, round_up, shift_one, resize, push}
use c10k.Queue.Represents.{Represents, Window-snoc}
use c10k.Queue.Resize.{msb_lem, resize-Represents, take_all}

-- The end of `q_push`, where there is room.
pushed : Queue → ℕ → Queue
pushed q v = record q {
  cells = set q.cells q.back (some v);
  size = q.size + 1;
  back = bit_and (q.back + 1) q.range_mask;
}

module _ {q : Queue} {xs : List ℕ} (v : ℕ) (r : Represents q xs) where
  open r use {order, order_le, mask, room, positive, front_in, size_eq, fits, back_eq}

  back_in : q.back < length q.cells
  back_in = rw (room, back_eq) (mod-lt (q.front + length xs) positive)

  store-back : store q.cells q.back v ≡ some (set q.cells q.back (some v))
  store-back = store-eq-some q.cells q.back v back_in

  pushed-Represents : length xs < 2 ^ order → Represents (pushed q v) (xs ++ v ∷ [])
  unfolding pushed
  pushed-Represents free = record {
    order = order;
    order_le = order_le;
    mask = mask;
    room = length-set q.cells q.back (some v) ∙ room;
    positive = positive;
    front_in = front_in;
    size_eq = omega (arith, length-append xs (v ∷ []));
    fits = omega (arith, length-append xs (v ∷ []));
    back_eq = next_back;
    window =
        Window-snoc q.cells (2 ^ order) q.front q.back xs v room front_in free back_eq r.window;
  }
    where
      next_back : bit_and (q.back + 1) q.range_mask ≡ (q.front + length (xs ++ v ∷ [])) % 2 ^ order
      next_back =
          rw (mask, and_mask, back_eq, mod-add-mod)
            (ap (λ n. n % 2 ^ order) (omega (arith, length-append xs (v ∷ []))))

module _ (malloc : Malloc) (v : ℕ) where
  push_with_room :
      {q : Queue} {xs : List ℕ} (r : Represents q xs)
      → length xs < 2 ^ r.order
      → push malloc q v ≡ some (pushed q v)
  unfolding push pushed
  push_with_room {q} {xs} r free =
      let t : leb (q.range_mask + 1) q.size ≡ false =
        ground (arith, r.mask, r.size_eq, r.positive) in
      rw (t, store-back v r)

  -- A full ring below the largest capacity doubles first.
  push_when_full :
      {q : Queue} {xs : List ℕ}
      → Gives malloc (2 ^ 33)
      → (r : Represents q xs) → length xs ≡ 2 ^ r.order
      → r.order < 30
      → (q' : Queue) × (push malloc q v ≡ some q') × Represents q' (xs ++ v ∷ [])
  unfolding push pushed
  push_when_full {q} {xs} gives r full small =
      let k = suc r.order in
      let (q', runs, r', cap) =
        resize-Represents malloc gives ((q.range_mask + 1) * 2) k r small
          (omega (arith, r.mask, r.positive, pow-suc 2 r.order))
          (omega (arith, r.mask, r.positive, pow-suc 2 r.order)) in
      let kept : Represents q' xs =
        subst (Represents q') (take_all xs (2 ^ k) (omega (arith, pow-suc 2 r.order))) r' in
      let t : leb (q.range_mask + 1) q.size ≡ true =
        ground (arith, r.mask, r.size_eq, r.positive) in
      rw (t, runs, store-back v kept)
        (
          pushed q' v,
          refl,
          pushed-Represents v kept
              (omega (arith, kept.mask, kept.positive, cap, pow-suc 2 r.order, r.positive)),
        )

  order-lt : {q : Queue} {xs : List ℕ} (r : Represents q xs) → 2 ^ r.order < 2 ^ 30 → r.order < 30
  order-lt r below = elim (dec_lt r.order 30) [
    | yes p ↦ p
    | no p ↦
        let o : r.order ≡ 30 = omega (arith, r.order_le) in
        let e : 2 ^ r.order ≡ 2 ^ 30 = ap (λ k. 2 ^ k) o in absurd (omega arith)
  ]

  -- With memory, `q_push` adds the pointer behind the others, whatever the ring holds below
  -- `2 ^ 30` pointers.
  pub push-Represents :
      {q : Queue} {xs : List ℕ}
      → Gives malloc (2 ^ 33)
      → Represents q xs
      → length xs < 2 ^ 30
      → (q' : Queue) × (push malloc q v ≡ some q') × Represents q' (xs ++ v ∷ [])
  push-Represents {q} {xs} gives r few = elim (dec_lt (length xs) (2 ^ r.order)) [
    | yes free ↦ (pushed q v, push_with_room r free, pushed-Represents v r free)
    | no full ↦ push_when_full gives r (omega (arith, r.fits)) (order-lt r (omega (arith, r.fits)))
  ]

  round_up_overflow : round_up (2 ^ 31) ≡ none
  unfolding round_up shift_one
  round_up_overflow = rw (msb_lem 31 (2 ^ 31) (omega arith) (omega arith) (omega arith))

  -- A ring that holds `2 ^ 30` pointers cannot take one more: the `int` shift of `q_resize`
  -- overflows.
  pub push_overflow :
      {q : Queue} {xs : List ℕ} → Represents q xs → length xs ≡ 2 ^ 30 → push malloc q v ≡ none
  unfolding push resize
  push_overflow {q} {xs} r e =
      let top : 2 ^ r.order ≡ 2 ^ 30 =
        ground (arith, r.fits, pow-le-pow_right {n = 2} (omega arith) r.order_le) in
      let t : leb (q.range_mask + 1) q.size ≡ true = ground (arith, r.mask, r.size_eq, r.fits) in
      let double : (q.range_mask + 1) * 2 ≡ 2 ^ 31 = omega (arith, r.mask) in
      rw (t, double, round_up_overflow)
