-- ===== src/Queue/Tests.antt =====
-- The queue laws at concrete rings.
use c10k.Base.{ℕ, ◌+◌, ◌≡◌, refl, true, none, some, List, [], ◌∷◌, ◌++◌, take, ◌^◌, arith}
use c10k.Base.Memory.{Malloc, Gives, load, store}
use c10k.Queue.{Queue, create, next, move, round_up, msb, msb_loop, shift_one, resize, push}
use c10k.Queue.Represents.{Represents, create-Represents, next-cons}
use c10k.Queue.Resize.{resize-Represents, resize_overflow}
use c10k.Queue.Push.{push-Represents}
use c10k.Queue.Run.{Call, put, get, run, results, remains, run-create}

abbrev ample : Malloc
ample _ = true

ample-Gives : (n : ℕ) → Gives ample n
ample-Gives n m h = refl

-- Three pointers round the end of four cells.
abbrev ring : Queue
ring = record {
  front = 2;
  back = 1;
  size = 3;
  range_mask = 3;
  cells = some 30 ∷ none ∷ some 10 ∷ some 20 ∷ [];
}

abbrev content : List ℕ
content = 10 ∷ 20 ∷ 30 ∷ []

ring-Represents : Represents ring content
ring-Represents = record {
  order = 2;
  order_le = omega arith;
  mask = refl;
  room = refl;
  positive = omega arith;
  front_in = omega arith;
  size_eq = refl;
  fits = omega arith;
  back_eq = refl;
  window = (refl, (refl, (refl, tt)));
}

doubles_when_full :
    (run ample (put 1 ∷ put 2 ∷ put 3 ∷ get ∷ get ∷ []) ring)
    ≡ some (
      10 ∷ 20 ∷ [],
      record {
        front = 2;
        back = 6;
        size = 4;
        range_mask = 7;
        cells = some 10 ∷ some 20 ∷ some 30 ∷ some 1 ∷ some 2 ∷ some 3 ∷ none ∷ none ∷ [];
      },
    )
unfolding run push resize move next round_up msb msb_loop shift_one load store
doubles_when_full = refl

create-Represents_example : Represents (create ample) []
create-Represents_example = create-Represents ample (ample-Gives 64)

next-cons_example :
    (q' : Queue) × (next ring ≡ some (10, q'))
    × Represents q' (20 ∷ 30 ∷ [])
    × (q'.cells ≡ ring.cells)
next-cons_example = next-cons ring-Represents

push-Represents_example :
    (q' : Queue) × (push ample ring 40 ≡ some q') × Represents q' (content ++ 40 ∷ [])
push-Represents_example =
    push-Represents ample 40 (ample-Gives (2 ^ 33)) ring-Represents (omega arith)

-- Shrunk to two cells, the ring forgets the newest pointer.
resize-Represents_example :
    (q' : Queue) × (resize ample ring 2 ≡ some q')
    × Represents q' (take (2 ^ 1) content)
    × (q'.range_mask + 1 ≡ 2 ^ 1)
resize-Represents_example =
    resize-Represents ample (ample-Gives (2 ^ 33)) 2 1 ring-Represents (omega arith) (omega arith)
      (omega arith)

resize_overflow_example : resize ample ring (2 ^ 30 + 1) ≡ none
resize_overflow_example = resize_overflow ample ring (2 ^ 30 + 1) (omega arith) (omega arith)

abbrev script : List Call
script = put 5 ∷ get ∷ get ∷ put 6 ∷ put 7 ∷ get ∷ []

run-create_example :
    (q' : Queue) × (run ample script (create ample) ≡ some (results script [], q'))
    × Represents q' (remains script [])
run-create_example = run-create ample script (ample-Gives (2 ^ 33)) (omega arith)
