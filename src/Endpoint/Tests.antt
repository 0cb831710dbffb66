-- ===== src/Endpoint/Tests.antt =====
-- The endpoint laws at an endpoint with the clients 1, 3 and 64, of which 3 is to be disconnected.
use c10k.Base.{
  Option, Option-cases, inl, inr, ap, sym, List, ℕ, zero, suc, ◌*◌, ◌^◌, ◌<◌, ◌≡◌, refl, true,
  false, none, some, [], ◌∷◌, ◌++◌, get_elem?, ◌==◌, if◌then◌else◌, arith,
}
use c10k.Base.Memory.{◌>>=◌, Malloc, Gives}
use c10k.Boolset
use c10k.Boolset.{Boolset}
use c10k.Boolset.Valid.{IsValid}
use c10k.Stack.{Ptr, Heap, Stack}
use c10k.Stack.Segment.{Nodes, Holds, is_node}
use c10k.Endpoint.{
  create, close, close_hungups, event_limit, EpollEvent, accept, wait_event, socket_fds_of,
  Endpoint, disconnect_client, disconnect_all_clients, hang_up, epoll_del, close_fd,
}
use c10k.Endpoint.Accepts.{accept-connected, welcomes, is_in}
use c10k.Endpoint.Waits.{hung, wait_event-hung, close_hungups-wait_event}
use c10k.Endpoint.Hungups.{close_hungups-connected, goodbyes, is_queued}
use c10k.Endpoint.Open.{IsOpen, connected, SameFds}
use c10k.Endpoint.Drain.{farewells}
use c10k.Endpoint.Watched.{watched}
use c10k.Endpoint.Calls.{Call, accepts, waits, closes_hungups, disconnects, run, AllAllowed}
use c10k.Endpoint.Lifetime.{close-run}
use c10k.Endpoint.Clients.{disconnect_client-connected, disconnect_all_clients-connected}

abbrev ample : Malloc
ample _ = true

ample-Gives : (n : ℕ) → Gives ample n
ample-Gives n m h = refl

abbrev clients : Boolset
clients = record { size = 2; cells = some 10 ∷ some 1 ∷ [] }

clients-IsValid : IsValid clients
clients-IsValid = record { size_eq = refl; size_le = omega arith; words = words }
  where
    words : (i : ℕ) → i < 2 → (w : ℕ) × (get_elem? clients.cells i ≡ some (some w)) × (w < 2 ^ 64)
    words zero h = (10, refl, omega arith)
    words (suc zero) h = (1, refl, omega arith)
    words (suc (suc i)) h = absurd (omega arith)

abbrev heap : Heap
heap a = if a == 16 then some (record { prev = 0; value = 3 }) else none

abbrev queue : Stack
queue = record { top = 16 }

abbrev nodes : Nodes
nodes = (16, 3) ∷ []

abbrev endpoint : Endpoint
endpoint = record {
  srv_fd = 7;
  ep_listener = 8;
  ep_selector = 9;
  shutdown_fd = 10;
  connected_clients_fds = clients;
  connected_clients_lock = false;
  disconnect_queue_lock = false;
  disconnect_queue = queue;
  heap = heap;
  calls = [];
}

queue-Holds : Holds heap queue nodes
queue-Holds = record { top = refl; chain = (omega arith, refl, tt, tt) }

endpoint-IsOpen : IsOpen endpoint nodes
endpoint-IsOpen = record {
  clients = clients-IsValid;
  clients_free = refl;
  queue_free = refl;
  queue = queue-Holds;
}

disconnect_client-connected_example :
    (e' : Endpoint) × (disconnect_client ample endpoint 3 ≡ some e')
    × IsOpen e' nodes
    × (e'.calls ≡ endpoint.calls ++ hang_up endpoint 3)
    × ((j : ℕ) → connected e' j ≡ (if j == 3 then false else connected endpoint j))
    × SameFds endpoint e'
disconnect_client-connected_example =
    disconnect_client-connected ample (ample-Gives (2 ^ 61)) endpoint nodes 3 endpoint-IsOpen
      (omega arith)

disconnect_all_clients-connected_example :
    (e' : Endpoint) × (disconnect_all_clients ample 2 endpoint ≡ some e')
    × IsOpen e' []
    × (e'.calls ≡ endpoint.calls ++ farewells endpoint (endpoint.connected_clients_fds.size * 64) 0)
    × ((j : ℕ) → connected e' j ≡ false)
    × SameFds endpoint e'
    × ((a : Ptr) → e'.heap a ≡ (if is_node a nodes then none else endpoint.heap a))
disconnect_all_clients-connected_example =
    disconnect_all_clients-connected ample (ample-Gives (2 ^ 61)) 2 endpoint nodes endpoint-IsOpen
      (omega arith)

close_hungups-connected_example :
    (e' : Endpoint) × (close_hungups ample 2 endpoint ≡ some (1, e'))
    × IsOpen e' []
    × (e'.calls ≡ endpoint.calls ++ goodbyes endpoint.ep_selector nodes)
    × ((j : ℕ) → connected e' j ≡ (if is_queued j nodes then false else connected endpoint j))
    × SameFds endpoint e'
close_hungups-connected_example =
    close_hungups-connected ample (ample-Gives (2 ^ 61)) 2 endpoint nodes endpoint-IsOpen
      (omega arith, tt) (omega arith)

-- Two events, the second of a client that hangs up, and two sockets to accept.
abbrev pending : List (EpollEvent × Ptr)
pending = (record { events = 1; fd = 1 }, 80) ∷ (record { events = 0x2001; fd = 64 }, 96) ∷ []

abbrev idle : Endpoint
idle = record endpoint { disconnect_queue = record { top = 0 }; heap = λ _. none }

idle-IsOpen : IsOpen idle []
idle-IsOpen = record {
  clients = clients-IsValid;
  clients_free = refl;
  queue_free = refl;
  queue = record { top = refl; chain = tt };
}

accept-connected_example :
    (e' : Endpoint) × (accept ample endpoint
        (some (record { events = 1; fd = 7 }))
        (20 ∷ 21 ∷ [])
        1
        5
      ≡ some (some (20 ∷ []), e'))
    × IsOpen e' nodes
    × (e'.calls ≡ endpoint.calls ++ welcomes endpoint.ep_selector 5 (20 ∷ []))
    × ((j : ℕ) → connected e' j ≡ (if is_in j (20 ∷ []) then true else connected endpoint j))
    × SameFds endpoint e'
accept-connected_example =
    accept-connected ample (ample-Gives (2 ^ 61)) endpoint nodes (record { events = 1; fd = 7 })
      (20 ∷ 21 ∷ []) 1 5 endpoint-IsOpen refl (omega arith, (omega arith, tt))

wait_event-hung_example :
    (e' : Endpoint) × (wait_event idle (some pending) 2 ≡ some (some (socket_fds_of pending), e'))
    × IsOpen e' (hung pending ++ [])
    × (e'.connected_clients_fds ≡ idle.connected_clients_fds)
    × (e'.calls ≡ idle.calls)
    × SameFds idle e'
unfolding event_limit
wait_event-hung_example =
    wait_event-hung idle [] pending 2 idle-IsOpen
      (omega arith, refl, (omega arith, tt), (omega arith, refl, tt, tt))

close_hungups-wait_event_example :
    (e' : Endpoint) × ((wait_event idle (some pending) 2 >>= λ r. close_hungups ample 2 r.1)
      ≡ some (1, e'))
    × IsOpen e' []
    × (e'.calls ≡ idle.calls ++ goodbyes idle.ep_selector (hung pending))
    × ((j : ℕ) → connected e' j ≡ (if is_queued j (hung pending) then false else connected idle j))
unfolding hung event_limit
close_hungups-wait_event_example =
    close_hungups-wait_event ample (ample-Gives (2 ^ 61)) idle pending 2 2 idle-IsOpen
      (omega arith, refl, (omega arith, tt), (omega arith, refl, tt, tt)) (omega arith, tt)
      (omega arith)

-- An endpoint whose client 3 hangs up, which then accepts 20 and 21 and disconnects 21.
abbrev session : List Call
session =
    waits (some ((record { events = 0x2001; fd = 3 }, 80) ∷ [])) 1
    ∷ accepts (record { events = 1; fd = 7 }) (20 ∷ 21 ∷ []) 8 5
    ∷ closes_hungups 2
    ∷ disconnects 21
    ∷ []

created_heap : (h : Heap) (e : Endpoint) → create ample h 7 8 9 10 7999 false ≡ some e → e.heap ≡ h
unfolding create
created_heap h e made = elim (Option-cases (Boolset.create ample)) [
  | inl gone ↦ absurd (cc (rw gone at made))
  | inr (b, makes) ↦ ap heap_or (sym (rw makes at made))
]
  where
    heap_or : Option Endpoint → Heap
    heap_or none = h
    heap_or (some e') = e'.heap

session-allowed :
    (e : Endpoint)
    → create ample (λ _. none) 7 8 9 10 7999 false ≡ some e
    → AllAllowed ample e [] session
unfolding event_limit hung
session-allowed e made = (
  rw (created_heap (λ _. none) e made) (omega arith, refl, tt, tt),
  λ e1 _. (
    (refl, (omega arith, (omega arith, tt))),
    λ e2 _. (((omega arith, tt), omega arith), λ e3 _. (omega arith, λ e4 _. tt)),
  ),
)

close-run_example :
    (e1 : Endpoint) × (e : Endpoint) × ((create ample (λ _. none) 7 8 9 10 7999 false >>= λ e0.
    run ample e0 session)
      ≡ some e1)
    × (close ample 1 e1 ≡ some e)
    × (e.connected_clients_fds.cells ≡ [])
    × Holds e.heap e.disconnect_queue []
    × ((a : Ptr) → e.heap a ≡ e1.heap a)
    × (e.calls
        ≡ e1.calls
          ++ close_fd 7
            ∷ (farewells e1 (e1.connected_clients_fds.size * 64) 0
                ++ epoll_del 8 7
                  ∷ epoll_del 8 10
                  ∷ epoll_del 9 10
                  ∷ close_fd 8
                  ∷ close_fd 9
                  ∷ close_fd 10
                  ∷ []))
    × ((fd : ℕ) → watched 9 fd false e.calls ≡ false)
close-run_example =
    close-run ample (ample-Gives (2 ^ 61)) (λ _. none) 7 8 9 10 7999 false session (omega arith)
      session-allowed 1 (omega arith)
