-- ===== src/Stack/Tests.antt =====
-- The stack laws at a concrete heap: two nodes at 16 and 48.
use c10k.Base.{◌≡◌, refl, none, some, [], ◌∷◌, ◌==◌, if◌then◌else◌, arith}
use c10k.Base.Memory.{◌>>=◌}
use c10k.Stack.{Ptr, Heap, Stack, load, free, push, pop, empty}
use c10k.Stack.Segment.{Nodes, Holds, is_node}
use c10k.Stack.Laws.{empty-Holds, pop-push}

abbrev heap : Heap
heap a =
    if a == 48
    then some (record { prev = 16; value = 7 })
    else if a == 16
    then some (record { prev = 0; value = 5 })
    else none

abbrev stack : Stack
stack = record { top = 48 }

abbrev nodes : Nodes
nodes = (48, 7) ∷ (16, 5) ∷ []

stack-Holds : Holds heap stack nodes
stack-Holds = record {
  top = refl;
  chain = (omega arith, refl, (omega arith, tt), (omega arith, refl, tt, tt));
}

pops_top : (pop heap stack >>= λ r. some (r.0)) ≡ some 7
unfolding pop load free
pops_top = refl

empty-Holds_example :
    (h' : Heap) × (s' : Stack) × (empty 3 heap stack ≡ some (h', s'))
    × Holds h' s' []
    × ((a : Ptr) → h' a ≡ (if is_node a nodes then none else heap a))
empty-Holds_example = empty-Holds 3 nodes stack-Holds (omega arith)

pop-push_example :
    (h' : Heap) × (s' : Stack) × ((push heap stack 80 9 >>= λ r. pop (r.0) (r.1))
      ≡ some (9, h', s'))
    × Holds h' s' nodes
    × ((a : Ptr) → h' a ≡ heap a)
pop-push_example = pop-push 80 9 stack-Holds (omega arith) refl
