-- ===== src/Stack.antt =====
-- src/unix/stack.c, include/unix/stack.h: a linked stack of pointers on the heap.
-- An address is a number, 0 is NULL. The heap maps each address to the node that is allocated
-- there. `malloc` returns an address that the caller of the model chooses.
pub mod Segment
pub mod Laws
mod Tests
use c10k.Base.{ℕ, zero, suc, Bool, Option, none, some, ◌==◌, if◌then◌else◌, true, false}
use c10k.Base.Memory.{◌>>=◌}

abbrev pub Ptr : Type 0
Ptr = ℕ

abbrev pub null : Ptr
null = 0

-- `stack_node`; the member `data` of the source is `value` here.
pub record StackNode : Type 0 where
  pub prev : Ptr
  pub value : ℕ

abbrev pub Heap : Type 0
Heap = Ptr → Option StackNode

-- `struct stack`
pub record Stack : Type 0 where
  pub top : Ptr

unfoldable pub write : Heap → Ptr → Option StackNode → Heap
write h p node a = if a == p then node else h a

-- A read through NULL, or of an address where no node is allocated, is undefined behaviour.
unfoldable pub load : Heap → Ptr → Option StackNode
load h p = if p == null then none else h p

-- `free` gives the node at `p` back. It is undefined where none is allocated.
unfoldable pub free : Heap → Ptr → Option Heap
free h p = do _ ← load h p; some (write h p none)

pub create : Stack
create = record { top = null }

-- `new_node` is what `malloc` returned. The code does not look whether it is NULL: the two
-- assignments through it are then undefined.
pub push : Heap → Stack → (new_node : Ptr) → (val : ℕ) → Option (Heap × Stack)
push h s new_node val =
    if new_node == null
    then none
    else some
        (write h new_node (some (record { prev = s.top; value = val })), record { top = new_node })

-- The value, the heap and the stack after the call.
pub pop : Heap → Stack → Option (ℕ × Heap × Stack)
pop h s = do
  node ← load h s.top
  h' ← free h s.top
  some (node.value, h', record { top = node.prev })

pub is_empty : Stack → Bool
is_empty s = s.top == null

-- The loop of `stack_empty` takes fuel: on a stack whose nodes form a cycle it would fault at the
-- second visit of a node, not run on, so `none` stands for both.
pub empty_loop : (fuel : ℕ) → Heap → Ptr → Option Heap
empty_loop zero h top = none
empty_loop (suc fuel) h top = elim (top == null) [
  | true ↦ some h
  | false ↦ do node ← load h top; h' ← free h top; empty_loop fuel h' node.prev
]

-- `stack_empty`, and `stack_destroy`, which only calls it. The stack is left with no top.
pub empty : (fuel : ℕ) → Heap → Stack → Option (Heap × Stack)
empty fuel h s = do h' ← empty_loop fuel h s.top; some (h', record { top = null })

unfoldable pub destroy : (fuel : ℕ) → Heap → Stack → Option (Heap × Stack)
destroy fuel h s = empty fuel h s
