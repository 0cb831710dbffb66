-- ===== src/Endpoint.antt =====
-- src/unix/endpoint.c, include/unix/endpoint.h: a TCP endpoint and its clients.
-- The operating system is outside the model. What it answers (descriptors, events, accepted
-- sockets) is an argument; what it is asked is written to `calls`, in order. Each mutex is a flag,
-- and a thread that locks what is locked waits for ever, which is `none` as undefined behaviour is:
-- the functions run one at a time here. File descriptors and event masks are bit patterns.
pub mod Open
pub mod Drain
pub mod Clients
pub mod Hungups
pub mod Accepts
pub mod Waits
pub mod Watched
pub mod Calls
pub mod Lifetime
mod Tests
use c10k.Base.{
  ℕ, zero, suc, ◌+◌, ◌/◌, ◌^◌, bit_and, bit_or, Bool, true, false, not, Option, none, some, List,
  [], ◌∷◌, ◌++◌, length, take, ltb, ◌==◌, if◌then◌else◌,
}
use c10k.Base.Memory.{◌>>=◌, Malloc}
use c10k.Boolset
use c10k.Boolset.{Boolset}
use c10k.Stack
use c10k.Stack.{Stack, Heap, Ptr}

-- What the endpoint asks of the operating system.
pub data Syscall : Type 0 where
  socket : (ipv6 : Bool) → Syscall
  set_nonblock : (fd : ℕ) → Syscall
  bind : (fd : ℕ) (ipv6 : Bool) (port : ℕ) → Syscall
  listen : (fd backlog : ℕ) → Syscall
  epoll_create eventfd : Syscall
  epoll_add : (epoll fd events : ℕ) → Syscall
  epoll_del : (epoll fd : ℕ) → Syscall
  shutdown : (fd : ℕ) → Syscall
  close_fd : (fd : ℕ) → Syscall

-- `struct epoll_event`, with the descriptor that the endpoint keeps in it.
pub record EpollEvent : Type 0 where
  pub events : ℕ
  pub fd : ℕ

abbrev pub epollin : ℕ
epollin = 0x1

abbrev pub epollhup : ℕ
epollhup = 0x10

abbrev pub epollrdhup : ℕ
epollrdhup = 0x2000

-- `struct endpoint`, with the part of the process that its functions reach: the heap of the
-- stack's nodes, and the system calls so far.
pub record Endpoint : Type 0 where
  pub srv_fd : ℕ
  pub ep_listener : ℕ
  pub ep_selector : ℕ
  pub shutdown_fd : ℕ
  pub connected_clients_fds : Boolset
  pub connected_clients_lock : Bool
  pub disconnect_queue_lock : Bool
  pub disconnect_queue : Stack
  pub heap : Heap
  pub calls : List Syscall

-- `pthread_mutex_lock` and `pthread_mutex_unlock` on the two mutexes.
pub lock_clients : Endpoint → Option Endpoint
lock_clients e =
    if e.connected_clients_lock then none else some (record e { connected_clients_lock = true })

pub unlock_clients : Endpoint → Endpoint
unlock_clients e = record e { connected_clients_lock = false }

pub lock_queue : Endpoint → Option Endpoint
lock_queue e =
    if e.disconnect_queue_lock then none else some (record e { disconnect_queue_lock = true })

pub unlock_queue : Endpoint → Endpoint
unlock_queue e = record e { disconnect_queue_lock = false }

pub ask : Endpoint → List Syscall → Endpoint
ask e more = record e { calls = e.calls ++ more }

-- `fuel` is for `stack_destroy`.
pub clear_disconnection_queue : (fuel : ℕ) → Endpoint → Option Endpoint
clear_disconnection_queue fuel e = do
  e1 ← lock_queue e
  (heap', queue') ← Stack.destroy fuel e1.heap e1.disconnect_queue
  some (unlock_queue (record e1 { heap = heap'; disconnect_queue = queue' }))

module _ (malloc : Malloc) where
  pub mark_client : Endpoint → (socket_fd val : ℕ) → Option Endpoint
  mark_client e socket_fd val = do
    e1 ← lock_clients e
    set' ← Boolset.set malloc e1.connected_clients_fds socket_fd val
    some (unlock_clients (record e1 { connected_clients_fds = set' }))

  pub register_client : Endpoint → ℕ → Option Endpoint
  register_client e socket_fd = mark_client e socket_fd 1

  pub deregister_client : Endpoint → ℕ → Option Endpoint
  deregister_client e socket_fd = mark_client e socket_fd 0

-- `new_node` is the address that `malloc` returns to `stack_push`.
pub enqueue_client_for_disconnection : (new_node : Ptr) → Endpoint → ℕ → Option Endpoint
enqueue_client_for_disconnection new_node e socket_fd = do
  e1 ← lock_queue e
  (heap', queue') ← Stack.push e1.heap e1.disconnect_queue new_node socket_fd
  some (unlock_queue (record e1 { heap = heap'; disconnect_queue = queue' }))

pub create_epoll_event : (fd events : ℕ) → EpollEvent
create_epoll_event fd events = record { events = events; fd = fd }

-- The calls on the new socket `srv_fd`, which `socket` returned.
pub create_server_socket : (srv_fd port_number : ℕ) (ipv6 : Bool) → List Syscall
create_server_socket srv_fd port_number ipv6 =
    socket ipv6 ∷ set_nonblock srv_fd ∷ bind srv_fd ipv6 port_number ∷ listen srv_fd 512 ∷ []

-- `epoll_ctl(ep, EPOLL_CTL_ADD, fd, &event)`
abbrev pub epoll_ctl_add : (ep fd : ℕ) → EpollEvent → Syscall
epoll_ctl_add ep fd event = epoll_add ep fd event.events

-- The three calls that end a connection.
abbrev pub hang_up : Endpoint → ℕ → List Syscall
hang_up e socket_fd =
    epoll_del e.ep_selector socket_fd ∷ shutdown socket_fd ∷ close_fd socket_fd ∷ []

module _ (malloc : Malloc) where
  -- The descriptors are those that the system returns to `socket`, the two `epoll_create1` and
  -- `eventfd`.
  pub create :
      (heap : Heap) (srv_fd ep_listener ep_selector shutdown_fd port_number : ℕ) (ipv6 : Bool)
      → Option Endpoint
  create heap srv_fd ep_listener ep_selector shutdown_fd port_number ipv6 = do
    clients ← Boolset.create malloc
    let srv_events = create_epoll_event srv_fd (bit_or epollin epollhup)
    let sht_events = create_epoll_event shutdown_fd epollin
    some (record {
      srv_fd = srv_fd;
      ep_listener = ep_listener;
      ep_selector = ep_selector;
      shutdown_fd = shutdown_fd;
      connected_clients_fds = clients;
      connected_clients_lock = false;
      disconnect_queue_lock = false;
      disconnect_queue = Stack.create;
      heap = heap;
      calls =
          create_server_socket srv_fd port_number ipv6
          ++ epoll_create
            ∷ epoll_create
            ∷ eventfd
            ∷ epoll_ctl_add ep_listener srv_fd srv_events
            ∷ epoll_ctl_add ep_listener shutdown_fd sht_events
            ∷ epoll_ctl_add ep_selector shutdown_fd sht_events
            ∷ [];
    })

  pub disconnect_client : Endpoint → ℕ → Option Endpoint
  disconnect_client e socket_fd = do
    e1 ← deregister_client malloc e socket_fd
    some (ask e1 (hang_up e1 socket_fd))

  -- The callback of `endpoint_disconnect_all_clients`, which runs under the lock.
  pub disconnect_all_foreach : ℕ → Endpoint → Option Endpoint
  disconnect_all_foreach socket_fd e = do
    set' ← Boolset.set malloc e.connected_clients_fds socket_fd 0
    some (ask (record e { connected_clients_fds = set' }) (hang_up e socket_fd))

  pub disconnect_all_clients : (fuel : ℕ) → Endpoint → Option Endpoint
  disconnect_all_clients fuel e = do
    e1 ← lock_clients e
    e2 ← Boolset.foreach (λ s. s.connected_clients_fds) disconnect_all_foreach e1
    clear_disconnection_queue fuel (unlock_clients e2)

  -- `endpoint_close`. The mutexes are destroyed at the end.
  pub close : (fuel : ℕ) → Endpoint → Option Endpoint
  close fuel e = do
    e1 ← disconnect_all_clients fuel (ask e (close_fd e.srv_fd ∷ []))
    let e2 = ask e1 (
        epoll_del e1.ep_listener e1.srv_fd
        ∷ epoll_del e1.ep_listener e1.shutdown_fd
        ∷ epoll_del e1.ep_selector e1.shutdown_fd
        ∷ close_fd e1.ep_listener
        ∷ close_fd e1.ep_selector
        ∷ close_fd e1.shutdown_fd
        ∷ [])
    e3 ← lock_clients e2
    clear_disconnection_queue fuel (
        unlock_clients
          (record e3 { connected_clients_fds = Boolset.destroy e3.connected_clients_fds }))

  -- The loop of `endpoint_accept`. `incoming` are the sockets that `accept` returns before it
  -- returns -1; the new descriptors are returned in order.
  pub accept_loop :
      Endpoint → (incoming : List ℕ) → (room events_flags : ℕ) → Option (List ℕ × Endpoint)
  accept_loop e incoming zero events_flags = some ([], e)
  accept_loop e [] (suc room) events_flags = some ([], e)
  accept_loop e (new_client_fd ∷ incoming) (suc room) events_flags = do
    e1 ← register_client malloc e new_client_fd
    let client_event = create_epoll_event new_client_fd (bit_or events_flags epollrdhup)
    (new_fds, e2) ←
        accept_loop (ask e1 (epoll_ctl_add e1.ep_selector new_client_fd client_event ∷ [])) incoming
          room events_flags
    some (new_client_fd ∷ new_fds, e2)

  -- `none` for the descriptors is the result -1. `ep_event` is what `epoll_wait` stored; after a
  -- timeout or an error it stored nothing, and the function reads the variable all the same.
  pub accept :
      Endpoint
      → (ep_event : Option EpollEvent) → (incoming : List ℕ) → (new_fds_size events_flags : ℕ)
      → Option (Option (List ℕ) × Endpoint)
  accept e ep_event incoming new_fds_size events_flags = do
    event ← ep_event
    if not (bit_and event.events epollhup == 0) then some (none, e) else do
      (new_fds, e') ← accept_loop e incoming new_fds_size events_flags
      some (some new_fds, e')

-- `(1 << 9) / sizeof(struct epoll_event)`, which is packed to 12 bytes.
abbrev pub events_extract_size : ℕ
events_extract_size = 2 ^ 9 / 12

-- `event_limit`, the number of events that `epoll_wait` may return.
pub event_limit : ℕ → ℕ
event_limit max_events =
    if ltb max_events events_extract_size then max_events else events_extract_size

-- The loop of `endpoint_wait_event` over the events that `epoll_wait` returned, each with the
-- address that `malloc` would return for its node.
pub wait_loop : Endpoint → List (EpollEvent × Ptr) → Option Endpoint
wait_loop e [] = some e
wait_loop e ((event, new_node) ∷ ep_events) = do
  e1 ←
      if bit_and event.events epollrdhup == 0
      then some e
      else enqueue_client_for_disconnection new_node e event.fd
  wait_loop e1 ep_events

-- The descriptor and the flags of each event, as they are stored for the caller.
unfoldable pub socket_fds_of : List (EpollEvent × Ptr) → List (ℕ × ℕ)
socket_fds_of [] = []
socket_fds_of ((event, _) ∷ ep_events) = (event.fd, event.events) ∷ socket_fds_of ep_events

-- The descriptors and flags that are stored for the caller, `none` for the result -1, and the
-- endpoint after the call. `pending` is `none` if `epoll_wait` fails, as it does when no event is
-- asked for; else the events that it could return. It writes `event_limit` of these at most, and
-- beyond the end of `ep_events` that is undefined.
pub wait_event :
    Endpoint
    → (pending : Option (List (EpollEvent × Ptr))) → (max_events : ℕ)
    → Option (Option (List (ℕ × ℕ)) × Endpoint)
wait_event e none max_events = some (none, e)
wait_event e (some pending) max_events =
    let ep_events = take (event_limit max_events) pending in
    if ltb events_extract_size (length ep_events)
    then none
    else do e' ← wait_loop e ep_events; some (some (socket_fds_of ep_events), e')

module _ (malloc : Malloc) where
  -- The loop of `endpoint_close_hungups`.
  pub hungups_loop : (fuel count : ℕ) → Endpoint → Option (ℕ × Endpoint)
  hungups_loop zero count e = none
  hungups_loop (suc fuel) count e = elim (Stack.is_empty e.disconnect_queue) [
    | true ↦ some (count, e)
    | false ↦ do
      (socket_fd, heap', queue') ← Stack.pop e.heap e.disconnect_queue
      e1 ← disconnect_client malloc (record e { heap = heap'; disconnect_queue = queue' }) socket_fd
      hungups_loop fuel (count + 1) e1
  ]

  pub close_hungups : (fuel : ℕ) → Endpoint → Option (ℕ × Endpoint)
  close_hungups fuel e = do
    e1 ← lock_queue e
    (count, e2) ← hungups_loop fuel 0 e1
    some (count, unlock_queue e2)
