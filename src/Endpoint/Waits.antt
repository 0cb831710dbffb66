-- ===== src/Endpoint/Waits.antt =====
-- `endpoint_wait_event`: the clients that hang up go into the disconnection queue.
use c10k.Base.{
  ℕ, ◌^◌, ◌<◌, ◌≡◌, ◌≢◌, refl, sym, ap, subst, ◌∙◌, false, Option, none, some, List, [], ◌∷◌, ◌++◌,
  take, length, length-take, ltb, arith, Bool-cases, inl, inr, bit_and, ◌==◌, if◌then◌else◌,
}
use mathlib.Core.List.{append-nil, append_assoc}
use mathlib.Core.Option
use c10k.Base.Memory.{◌>>=◌, Malloc, Gives}
use c10k.Stack.{Stack, Heap, Ptr, null}
use c10k.Stack.Segment.{Nodes}
use c10k.Stack.Laws.{push-Holds}
use c10k.Endpoint.{
  Endpoint, EpollEvent, epollrdhup, unlock_queue, enqueue_client_for_disconnection, wait_loop,
  wait_event, events_extract_size, event_limit, socket_fds_of, close_hungups,
}
use c10k.Endpoint.Open.{IsOpen, connected, SameFds, lock_queue-eq}
use c10k.Endpoint.Hungups.{Small, goodbyes, is_queued, close_hungups-connected}

-- The nodes of the clients that hang up, latest event first: as they come to lie on the stack.
unfoldable pub hung : List (EpollEvent × Ptr) → Nodes
hung [] = []
hung ((event, new_node) ∷ events) =
    hung events ++ (if bit_and event.events epollrdhup == 0 then [] else (new_node, event.fd) ∷ [])

abbrev pub IsApart : Ptr → List (EpollEvent × Ptr) → Type 0
IsApart a [] = Unit
IsApart a ((_, b) ∷ events) = (b ≢ a) × IsApart a events

-- `malloc` returns addresses of unused memory, none of them twice.
abbrev pub Unused : Heap → List (EpollEvent × Ptr) → Type 0
Unused h [] = Unit
Unused h ((_, a) ∷ events) = (a ≢ null) × (h a ≡ none) × IsApart a events × Unused h events

pub Unused-other :
    (h h' : Heap) (a : Ptr) (events : List (EpollEvent × Ptr))
    → ((b : Ptr) → b ≢ a → h' b ≡ h b)
    → IsApart a events
    → Unused h events
    → Unused h' events
Unused-other h h' a [] same apart u = tt
Unused-other h h' a ((_, b) ∷ events) same (ne, apart) (pos, free, fresh, u) =
    (pos, same b ne ∙ free, fresh, Unused-other h h' a events same apart u)

-- `endpoint_enqueue_client_for_disconnection` puts the client on top of the queue.
enqueue-IsOpen :
    (e : Endpoint) (nodes : Nodes) (new_node : Ptr) (fd : ℕ)
    → IsOpen e nodes
    → new_node ≢ null
    → e.heap new_node ≡ none
    → (h' : Heap) × (q' : Stack) × (enqueue_client_for_disconnection new_node e fd
        ≡ some (record e { heap = h'; disconnect_queue = q'; disconnect_queue_lock = false }))
      × IsOpen
          (record e { heap = h'; disconnect_queue = q'; disconnect_queue_lock = false })
          ((new_node, fd) ∷ nodes)
      × ((a : Ptr) → a ≢ new_node → h' a ≡ e.heap a)
unfolding enqueue_client_for_disconnection unlock_queue
enqueue-IsOpen e nodes new_node fd o pos free =
    let (h', q', pushes, holds, same) = push-Holds new_node fd o.queue pos free in
    (
      h',
      q',
      rw (lock_queue-eq e o.queue_free, pushes) refl,
      record {
        clients = o.clients;
        clients_free = o.clients_free;
        queue_free = refl;
        queue = holds;
      },
      same,
    )

-- What the loop leaves.
record Waited (e : Endpoint) (nodes : Nodes) (events : List (EpollEvent × Ptr))
    (out : Option Endpoint) : Type 0 where
  heap : Heap
  queue : Stack
  returns :
      out ≡ some (record e { heap = heap; disconnect_queue = queue; disconnect_queue_lock = false })
  elsewhere : (a : Ptr) → IsApart a events → heap a ≡ e.heap a
  open_still :
      IsOpen
        (record e { heap = heap; disconnect_queue = queue; disconnect_queue_lock = false })
        nodes

wait_loop-Waited :
    (events : List (EpollEvent × Ptr)) (e : Endpoint) (nodes : Nodes)
    → IsOpen e nodes
    → Unused e.heap events
    → Waited e (hung events ++ nodes) events (wait_loop e events)
unfolding wait_loop hung
wait_loop-Waited [] e nodes o u = record {
  heap = e.heap;
  queue = e.disconnect_queue;
  elsewhere = λ a _. refl;
  returns = ap (λ b. some (record e { disconnect_queue_lock = b })) o.queue_free;
  open_still = record {
    clients = o.clients;
    clients_free = o.clients_free;
    queue_free = refl;
    queue = o.queue;
  };
}
wait_loop-Waited ((event, a) ∷ events) e nodes o (pos, free, apart, u) =
    elim (Bool-cases (bit_and event.events epollrdhup == 0)) [
      | inl stays ↦
          let later = wait_loop-Waited events e nodes o u in
          rw (stays, append-nil)
            (record {
              heap = later.heap;
              queue = later.queue;
              returns = later.returns;
              elsewhere = λ b q. later.elsewhere b q.1;
              open_still = later.open_still;
            })
      | inr leaves ↦
          let (h', q', runs, o', same) = enqueue-IsOpen e nodes a event.fd o pos free in
          let e1 = record e { heap = h'; disconnect_queue = q'; disconnect_queue_lock = false } in
          let later =
            wait_loop-Waited events e1 ((a, event.fd) ∷ nodes) o'
              (Unused-other e.heap h' a events same apart u) in
          rw (leaves, runs, append_assoc (hung events) ((a, event.fd) ∷ []) nodes)
            (record {
              heap = later.heap;
              queue = later.queue;
              returns = later.returns;
              elsewhere = λ b q. later.elsewhere b q.1 ∙ same b (λ x. q.0 (sym x));
              open_still = later.open_still;
            })
    ]

-- The events fit into `ep_events`.
events_fit :
    (pending : List (EpollEvent × Ptr)) (max_events : ℕ)
    → ltb events_extract_size (length (take (event_limit max_events) pending)) ≡ false
unfolding event_limit
events_fit pending max_events = ground (arith, length-take (event_limit max_events) pending)

-- What `epoll_wait` could return.
abbrev pub events_of : Option (List (EpollEvent × Ptr)) → List (EpollEvent × Ptr)
events_of none = []
events_of (some pending) = pending

-- `endpoint_wait_event` for one event.
pub wait_event-one :
    (e : Endpoint) (nodes : Nodes) (answer : Option (List (EpollEvent × Ptr)))
    → IsOpen e nodes
    → Unused e.heap (take 1 (events_of answer))
    → (e' : Endpoint) × (wait_event e answer 1
        ≡ some (Option.map (λ pending. socket_fds_of (take 1 pending)) answer, e'))
      × IsOpen e' (hung (take 1 (events_of answer)) ++ nodes)
      × ((a : Ptr) → IsApart a (take 1 (events_of answer)) → e'.heap a ≡ e.heap a)
unfolding wait_event event_limit hung
wait_event-one e nodes none o u = (e, refl, o, λ a apart. refl)
wait_event-one e nodes (some pending) o u =
    let w = wait_loop-Waited (take 1 pending) e nodes o u in
    (
      record e { heap = w.heap; disconnect_queue = w.queue; disconnect_queue_lock = false },
      rw (events_fit pending 1, w.returns) refl,
      w.open_still,
      w.elsewhere,
    )

-- On an open endpoint, when `malloc` returns unused addresses and `epoll_wait` does not fail,
-- `endpoint_wait_event` writes within its buffer and stores the descriptor and the flags of the
-- first pending events, as many as `event_limit` allows, in order; it puts the client of each with EPOLLRDHUP, and no other, on the disconnection queue, and leaves
-- the record of clients, the connections and the endpoint's own descriptors as they were.
pub wait_event-hung :
    (e : Endpoint) (nodes : Nodes) (pending : List (EpollEvent × Ptr)) (max_events : ℕ)
    → IsOpen e nodes
    → let events = take (event_limit max_events) pending in
      Unused e.heap events
      → (e' : Endpoint) × (wait_event e (some pending) max_events
          ≡ some (some (socket_fds_of events), e'))
        × IsOpen e' (hung events ++ nodes)
        × (e'.connected_clients_fds ≡ e.connected_clients_fds)
        × (e'.calls ≡ e.calls)
        × SameFds e e'
unfolding wait_event
wait_event-hung e nodes pending max_events o u =
    let events = take (event_limit max_events) pending in
    let w = wait_loop-Waited events e nodes o u in
    (
      record e { heap = w.heap; disconnect_queue = w.queue; disconnect_queue_lock = false },
      rw (events_fit pending max_events, w.returns) refl,
      w.open_still,
      refl,
      refl,
      (refl, refl, refl, refl),
    )

-- On an open endpoint with memory and an empty disconnection queue, when `malloc` returns unused
-- addresses, `epoll_wait` does not fail, the descriptors of the events that hang up are below
-- `2 ^ 64` and there is more fuel than such events, `endpoint_close_hungups` after
-- `endpoint_wait_event` ends the connection of each client whose event has EPOLLRDHUP, the latest
-- first, takes exactly these off the record and returns their number.
pub close_hungups-wait_event :
    (malloc : Malloc)
    → Gives malloc (2 ^ 61)
    → (e : Endpoint) (pending : List (EpollEvent × Ptr)) (max_events fuel : ℕ) → IsOpen e []
    → let events = take (event_limit max_events) pending in
      Unused e.heap events
      → Small (hung events)
      → length (hung events) < fuel
      → (e' : Endpoint) × ((wait_event e (some pending) max_events >>= λ r.
            close_hungups malloc fuel r.1)
          ≡ some (length (hung events), e'))
        × IsOpen e' []
        × (e'.calls ≡ e.calls ++ goodbyes e.ep_selector (hung events))
        × ((j : ℕ) → connected e' j ≡ (if is_queued j (hung events) then false else connected e j))
unfolding wait_event
close_hungups-wait_event malloc gives e pending max_events fuel o u small enough =
    let events = take (event_limit max_events) pending in
    let w = wait_loop-Waited events e [] o u in
    let e1 = record e {
      heap = w.heap;
      disconnect_queue = w.queue;
      disconnect_queue_lock = false;
    } in
    let o1 : IsOpen e1 (hung events) =
      subst (λ nodes. IsOpen e1 nodes) (append-nil (hung events)) w.open_still in
    let (e', runs, o', calls, one, _) =
      close_hungups-connected malloc gives fuel e1 (hung events) o1 small enough in
    (e', rw (events_fit pending max_events, w.returns, runs) refl, o', calls, one)
