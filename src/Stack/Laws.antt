-- ===== src/Stack/Laws.antt =====
-- `stack_push`, `stack_pop`, `stack_is_empty` and `stack_empty` on a stack with given nodes.
use c10k.Base.{
  ℕ, zero, suc, ◌<◌, ◌≡◌, refl, sym, ◌∙◌, ◌≢◌, ◌↔◌, true, false, Option, none, some, [], ◌∷◌,
  length, arith, ◌==◌, if◌then◌else◌, ℕ_discrete,
}
use c10k.Base.Memory.{◌>>=◌}
use c10k.Stack.{
  Ptr, null, StackNode, Heap, Stack, write, load, free, create, push, pop, is_empty, empty_loop,
  empty,
}
use c10k.Stack.Segment.{Nodes, top_of, Chain, Holds, Chain-write, IsFresh-of_none, is_node}

-- A new stack has no nodes.
pub create-Holds : (h : Heap) → Holds h create []
unfolding create
create-Holds h = record { top = refl; chain = tt }

-- `stack_is_empty` answers whether there is no node.
pub is_empty-Holds :
    {h : Heap} {s : Stack} (nodes : Nodes) → Holds h s nodes → (is_empty s ≡ true) ↔ (nodes ≡ [])
unfolding is_empty
is_empty-Holds [] holds = (λ _. refl, λ _. ground (arith, holds.top))
is_empty-Holds ((a, v) ∷ nodes) holds = (λ e. ground (arith, holds.top, holds.chain), λ e. cc)

pub is_empty-cons :
    {h : Heap} {s : Stack} (a : Ptr) (v : ℕ) (nodes : Nodes)
    → Holds h s ((a, v) ∷ nodes)
    → is_empty s ≡ false
unfolding is_empty
is_empty-cons a v nodes holds = ground (arith, holds.top, holds.chain)

pub is_empty-nil : {h : Heap} {s : Stack} → Holds h s [] → is_empty s ≡ true
unfolding is_empty
is_empty-nil holds = ground (arith, holds.top)

-- Given an address where nothing is allocated, `stack_push` puts the value on top and changes the
-- heap nowhere else.
pub push-Holds :
    {h : Heap} {s : Stack} {nodes : Nodes} (new_node : Ptr) (v : ℕ)
    → Holds h s nodes
    → new_node ≢ null
    → h new_node ≡ none
    → (h' : Heap) × (s' : Stack) × (push h s new_node v ≡ some (h', s'))
      × Holds h' s' ((new_node, v) ∷ nodes)
      × ((a : Ptr) → a ≢ new_node → h' a ≡ h a)
unfolding push write
push-Holds {h} {s} {nodes} new_node v holds pos unused =
    let node : StackNode = record { prev = s.top; value = v } in
    let fresh = IsFresh-of_none h new_node nodes unused holds.chain in
    (
      write h new_node (some node),
      record { top = new_node },
      ground arith,
      record {
        top = refl;
        chain = (
          pos,
          ground (arith, holds.top),
          fresh,
          Chain-write h new_node (some node) nodes fresh holds.chain,
        );
      },
      λ a ne. ground arith,
    )

load-top :
    {h : Heap} {s : Stack} {a : Ptr} {v : ℕ} {nodes : Nodes}
    → Holds h s ((a, v) ∷ nodes)
    → load h s.top ≡ some (record { prev = top_of nodes; value = v })
unfolding load
load-top {h} holds = rw holds.top (ground (arith, holds.chain))

-- On a stack that is not empty, `stack_pop` returns the top value, frees its node and no other, and leaves the rest.
pub pop-Holds :
    {h : Heap} {s : Stack} {a : Ptr} {v : ℕ} {nodes : Nodes}
    → Holds h s ((a, v) ∷ nodes)
    → (h' : Heap) × (s' : Stack) × (pop h s ≡ some (v, h', s'))
      × Holds h' s' nodes
      × (h' a ≡ none)
      × ((b : Ptr) → b ≢ a → h' b ≡ h b)
unfolding pop free write
pop-Holds {h} {s} {a} {v} {nodes} holds = (
  write h a none,
  record { top = top_of nodes },
  rw (load-top holds, holds.top) refl,
  record { top = refl; chain = Chain-write h a none nodes (holds.chain.2) (holds.chain.3) },
  ground arith,
  λ b ne. ground arith,
)

-- `stack_pop` of an empty stack reads through NULL.
pub pop-nil : {h : Heap} {s : Stack} → Holds h s [] → pop h s ≡ none
unfolding pop load
pop-nil {h} {s} holds = ground (arith, holds.top)

load-node :
    (h : Heap) (a : Ptr) {node : StackNode} → a ≢ null → h a ≡ some node → load h a ≡ some node
unfolding load
load-node h a pos here = ground arith

free-node :
    (h : Heap) (a : Ptr) {node : StackNode}
    → a ≢ null
    → h a ≡ some node
    → free h a ≡ some (write h a none)
unfolding free
free-node h a pos here = rw (load-node h a pos here)

-- The loop frees what it passes.
record Freed (h : Heap) (nodes : Nodes) (out : Option Heap) : Type 0 where
  heap : Heap
  returns : out ≡ some heap
  exactly : (a : Ptr) → heap a ≡ (if is_node a nodes then none else h a)

empty_loop-Freed :
    (fuel : ℕ) (h : Heap) (nodes : Nodes)
    → length nodes < fuel
    → Chain h nodes
    → Freed h nodes (empty_loop fuel h (top_of nodes))
unfolding empty_loop write
empty_loop-Freed zero h nodes enough chain = absurd (omega arith)
empty_loop-Freed (suc fuel) h [] enough chain = record {
  heap = h;
  returns = refl;
  exactly = λ a. refl;
}
empty_loop-Freed (suc fuel) h ((a, v) ∷ nodes) enough (pos, here, apart, chain) =
    let rest =
      empty_loop-Freed fuel (write h a none) nodes (omega arith)
        (Chain-write h a none nodes apart chain) in
    record {
      heap = rest.heap;
      returns =
          rw (not_null, empty_loop, load-node h a pos here, free-node h a pos here) rest.returns;
      exactly = λ b. ground (arith, rest.exactly b);
    }
  where
    not_null : (a == null) ≡ false
    not_null = ground arith

-- `stack_empty` with more fuel than nodes ends, frees exactly the nodes of the stack, and leaves
-- the stack empty.
pub empty-Holds :
    {h : Heap} {s : Stack} (fuel : ℕ) (nodes : Nodes)
    → Holds h s nodes
    → length nodes < fuel
    → (h' : Heap) × (s' : Stack) × (empty fuel h s ≡ some (h', s'))
      × Holds h' s' []
      × ((a : Ptr) → h' a ≡ (if is_node a nodes then none else h a))
unfolding empty
empty-Holds {h} fuel nodes holds enough =
    let out = empty_loop-Freed fuel h nodes enough holds.chain in
    rw (holds.top, out.returns)
      (out.heap, record { top = null }, refl, record { top = refl; chain = tt }, out.exactly)

-- Given an address where nothing is allocated, `stack_pop` after `stack_push` returns what was
-- pushed, with the nodes of the stack and the heap as they were.
pub pop-push :
    {h : Heap} {s : Stack} {nodes : Nodes} (new_node : Ptr) (v : ℕ)
    → Holds h s nodes
    → new_node ≢ null
    → h new_node ≡ none
    → (h' : Heap) × (s' : Stack) × ((push h s new_node v >>= λ r. pop (r.0) (r.1))
        ≡ some (v, h', s'))
      × Holds h' s' nodes
      × ((a : Ptr) → h' a ≡ h a)
pop-push {h} new_node v holds pos unused =
    let (h1, s1, pushes, holds1, same1) = push-Holds new_node v holds pos unused in
    let (h2, s2, pops, holds2, gone, same2) = pop-Holds holds1 in
    rw pushes (
      h2,
      s2,
      pops,
      holds2,
      λ a. elim (ℕ_discrete a new_node) [
        | yes e ↦ rw e (gone ∙ sym unused)
        | no ne ↦ same2 a ne ∙ same1 a ne
      ],
    )
