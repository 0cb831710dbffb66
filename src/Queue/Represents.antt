-- ===== src/Queue/Represents.antt =====
-- When a ring of queue.c stands for a list of pointers, and `q_create`, `q_next`, `q_is_empty`.
use c10k.Base.{
  ℕ, suc, ◌+◌, ◌-◌, ◌%◌, ◌^◌, ◌≤◌, ◌<◌, bit_and, ◌≡◌, refl, ap, ◌∙◌, ◌≢◌, ◌↔◌, true, some, List, [],
  ◌∷◌, ◌++◌, length, get_elem?, set, get_elem?-set_self, get_elem?-set_ne, arith,
}
use c10k.Base.Bits.{and_mask}
use c10k.Base.Memory.{Block, Malloc, Gives, load}
use native.Mathlib.Nat.{mod-add-mod, mod-eq_of_lt, mod-eq-sub-mod}
use c10k.Queue.{Queue, null, create, is_empty, next}

-- The cells from index `h` on, going round at `cap`, hold `xs`.
abbrev pub Window : Block ℕ → (cap h : ℕ) → List ℕ → Type 0
Window cells cap h [] = Unit
Window cells cap h (x ∷ xs) =
    (get_elem? cells h ≡ some (some x)) × Window cells cap ((h + 1) % cap) xs

-- `q` is a valid ring of `2 ^ order` cells that holds `xs`, oldest first.
pub record Represents (q : Queue) (xs : List ℕ) : Type 0 where
  pub order : ℕ
  pub order_le : order ≤ 30
  pub mask : q.range_mask ≡ 2 ^ order - 1
  pub room : length q.cells ≡ 2 ^ order
  pub positive : 0 < 2 ^ order
  pub front_in : q.front < 2 ^ order
  pub size_eq : q.size ≡ length xs
  pub fits : length xs ≤ 2 ^ order
  pub back_eq : q.back ≡ (q.front + length xs) % 2 ^ order
  pub window : Window q.cells (2 ^ order) q.front xs

-- A new queue is empty.
pub create-Represents : (malloc : Malloc) → Gives malloc 64 → Represents (create malloc) []
unfolding create
create-Represents malloc gives = record {
  order = 3;
  order_le = omega arith;
  mask = refl;
  room = rw (gives 64 (omega arith));
  positive = omega arith;
  front_in = omega arith;
  size_eq = refl;
  fits = omega arith;
  back_eq = refl;
  window = tt;
}

-- `q_is_empty` answers whether there is nothing in the queue.
pub is_empty-Represents :
    {q : Queue} (xs : List ℕ) → Represents q xs → (is_empty q ≡ true) ↔ (xs ≡ [])
unfolding is_empty
is_empty-Represents [] r = (λ _. refl, λ _. ground (arith, r.size_eq))
is_empty-Represents (x ∷ xs) r = (λ e. ground (arith, r.size_eq), λ e. cc)

-- On an empty queue `q_next` returns NULL and changes nothing.
pub next-nil : {q : Queue} → Represents q [] → next q ≡ some (null, q)
unfolding next
next-nil r = ground (arith, r.size_eq)

-- On a queue that is not empty, `q_next` returns the oldest pointer and leaves the others, and does
-- not write to the block.
pub next-cons :
    {q : Queue} {x : ℕ} {xs : List ℕ}
    → Represents q (x ∷ xs)
    → (q' : Queue) × (next q ≡ some (x, q')) × Represents q' xs × (q'.cells ≡ q.cells)
unfolding next load
next-cons {q} {x} {xs} r = (
  record q { front = bit_and (q.front + 1) q.range_mask; size = q.size - 1 },
  ground (arith, r.size_eq, r.window),
  record {
    order = order;
    order_le = order_le;
    mask = mask;
    room = room;
    positive = positive;
    front_in = rw front' (omega arith);
    size_eq = ground arith;
    fits = omega arith;
    back_eq = rw (front', mod-add-mod) (r.back_eq ∙ ap (λ n. n % 2 ^ order) (omega arith));
    window = rw front' (r.window.1);
  },
  refl,
)
  where
    open r use {order, order_le, mask, room, positive, front_in, size_eq, fits}

    front' : bit_and (q.front + 1) q.range_mask ≡ (q.front + 1) % 2 ^ order
    front' = rw mask (and_mask order (q.front + 1))

-- Fewer than `cap` steps round the ring do not come back.
go_round : (cap h k : ℕ) → h < cap → suc k < cap → (h + suc k) % cap ≢ h
go_round cap h k below few = grind (arith, mod-eq_of_lt, mod-eq-sub-mod)

-- A window is extended by writing the cell behind it.
pub Window-snoc :
    (cells : Block ℕ) (cap h i : ℕ) (xs : List ℕ) (v : ℕ)
    → length cells ≡ cap
    → h < cap
    → length xs < cap
    → i ≡ (h + length xs) % cap
    → Window cells cap h xs
    → Window (set cells i (some v)) cap h (xs ++ v ∷ [])
Window-snoc cells cap h i [] v room below few e w =
    let e' : i ≡ h = grind (arith, mod-eq_of_lt) in
    (rw e' (get_elem?-set_self cells h (some v) (omega arith)), tt)
Window-snoc cells cap h i (x ∷ xs) v room below few e w = (
  get_elem?-set_ne cells (some v) (rw e (go_round cap h (length xs) below (omega arith))) ∙ w.0,
  Window-snoc cells cap ((h + 1) % cap) i xs v room (omega arith) (omega arith)
      (rw mod-add-mod (e ∙ ap (λ n. n % cap) (omega arith))) w.1,
)
