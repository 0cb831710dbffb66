-- ===== src/Stack/Segment.antt =====
-- When the nodes on the heap form a stack of stack.c.
use c10k.Base.{ℕ, ◌≡◌, ◌≢◌, Bool, false, ◌||◌, Option, none, some, List, [], ◌∷◌, arith, ◌==◌}
use c10k.Stack.{Ptr, null, StackNode, Heap, Stack, write}

-- Address and value of each node, from the top.
abbrev pub Nodes : Type 0
Nodes = List (Ptr × ℕ)

abbrev pub top_of : Nodes → Ptr
top_of [] = null
top_of ((a, _) ∷ nodes) = a

-- No node has this address.
abbrev pub IsFresh : Ptr → Nodes → Type 0
IsFresh a [] = Unit
IsFresh a ((b, _) ∷ nodes) = (a ≢ b) × IsFresh a nodes

abbrev pub Chain : Heap → Nodes → Type 0
Chain h [] = Unit
Chain h ((a, v) ∷ nodes) =
    (a ≢ null)
    × (h a ≡ some (record { prev = top_of nodes; value = v }))
    × IsFresh a nodes
    × Chain h nodes

-- The stack `s` has these nodes.
pub record Holds (h : Heap) (s : Stack) (nodes : Nodes) : Type 0 where
  pub top : s.top ≡ top_of nodes
  pub chain : Chain h nodes

pub Chain-write :
    (h : Heap) (a : Ptr) (c : Option StackNode) (nodes : Nodes)
    → IsFresh a nodes
    → Chain h nodes
    → Chain (write h a c) nodes
unfolding write
Chain-write h a c [] fresh chain = tt
Chain-write h a c ((b, v) ∷ nodes) (ne, fresh) (pos, here, apart, chain) =
    (pos, ground arith, apart, Chain-write h a c nodes fresh chain)

-- What is not allocated is no node of a stack.
pub IsFresh-of_none :
    (h : Heap) (a : Ptr) (nodes : Nodes) → h a ≡ none → Chain h nodes → IsFresh a nodes
IsFresh-of_none h a [] unused chain = tt
IsFresh-of_none h a ((b, v) ∷ nodes) unused (pos, here, apart, chain) =
    (ground arith, IsFresh-of_none h a nodes unused chain)

abbrev pub is_node : Ptr → Nodes → Bool
is_node a [] = false
is_node a ((b, _) ∷ nodes) = (a == b) || is_node a nodes
