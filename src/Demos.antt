-- ===== src/Demos.antt =====
-- apps/Server_example.c and apps/Epoll_test.c: two demonstrations of epoll. What the system is
-- asked is a list of calls, and what it answers is an argument, as in Endpoint.
pub mod Serving
mod Tests
use c10k.Base.{
  ℕ, ◌+◌, bit_or, Bool, true, false, Option, none, some, List, [], ◌∷◌, ◌++◌, ◌==◌, if◌then◌else◌,
}
use c10k.Base.Memory.{◌>>=◌}
use c10k.Endpoint.{EpollEvent, epollin}

pub data Call : Type 0 where
  socket epoll_create : Call
  eventfd : (count : ℕ) → Call
  set_nonblock : (fd : ℕ) → Call
  bind : (fd port : ℕ) → Call
  listen : (fd backlog : ℕ) → Call
  epoll_add : (epoll fd events : ℕ) → Call
  epoll_del : (epoll fd : ℕ) → Call
  send_greeting : (fd : ℕ) → Call  -- the message of side_proc
  shutdown_write : (fd : ℕ) → Call
  close_fd : (fd : ℕ) → Call

abbrev pub epollet : ℕ
epollet = 0x80000000

abbrev pub epollwakeup : ℕ
epollwakeup = 0x20000000

pub create_epoll_event_test : (fd events : ℕ) → EpollEvent
create_epoll_event_test fd events = record { events = events; fd = fd }

pub flush_and_close : (socket_fd : ℕ) → List Call
flush_and_close socket_fd = shutdown_write socket_fd ∷ close_fd socket_fd ∷ []

-- What one `epoll_wait` of `side_proc` returns: 0; -1 with EINTR; -1 with another error, `event`
-- being left as it was; or the descriptor of an event. `incoming` are the sockets that `accept`
-- returns before it returns -1, if the loop goes that far.
pub data Wait : Type 0 where
  timed_out : Wait
  interrupted : Wait
  failed : (incoming : List ℕ) → Wait
  ready : (fd : ℕ) (incoming : List ℕ) → Wait

-- The loop over the waiting clients.
pub greet : (incoming : List ℕ) → List Call
greet [] = []
greet (new_socket ∷ incoming) =
    send_greeting new_socket ∷ (flush_and_close new_socket ++ greet incoming)

-- Where the loop of `side_proc` stands after some rounds: it has ended, or it goes on with the
-- descriptor in `event`, which is unwritten at first.
pub data Side : Type 0 where
  ended : Side
  goes_on : (event : Option ℕ) → Side

-- The rest of a round, with the descriptor in `event`.
pub side_round : (signaler fd : ℕ) → (incoming : List ℕ) → Side × List Call
side_round signaler fd incoming =
    if fd == signaler then (ended, []) else (goes_on (some fd), greet incoming)

-- One round of `side_proc`; to read the unwritten `event` is undefined.
pub side_step : (signaler : ℕ) (event : Option ℕ) → Wait → Option (Side × List Call)
side_step signaler event timed_out = some (goes_on event, [])
side_step signaler event interrupted = some (goes_on event, [])
side_step signaler event (failed incoming) = do fd ← event; some (side_round signaler fd incoming)
side_step signaler event (ready fd incoming) = some (side_round signaler fd incoming)

-- `side_proc`, for what its calls of `epoll_wait` return; after the end of the list it has not
-- returned from the next one.
pub side_proc : (signaler : ℕ) → Side → List Wait → Option (Side × List Call)
side_proc signaler ended waits = some (ended, [])
side_proc signaler (goes_on event) [] = some (goes_on event, [])
side_proc signaler (goes_on event) (w ∷ waits) = do
  (side, calls) ← side_step signaler event w
  (last, more) ← side_proc signaler side waits
  some (last, calls ++ more)

-- The calls on the new socket `srv_fd`.
pub create_server_socket : (srv_fd port_number : ℕ) → List Call
create_server_socket srv_fd port_number =
    socket ∷ set_nonblock srv_fd ∷ bind srv_fd port_number ∷ listen srv_fd 512 ∷ []

-- `main` of Server_example.c. The thread sees `before` until the signaler is in the epoll instance
-- and `after` from then on; `none` also if the thread has not ended, since main then waits for it.
pub server_example :
    (ep_instance srv_fd signaler : ℕ) (before after : List Wait) → Option (List Call)
server_example ep_instance srv_fd signaler before after = do
  (side, calls1) ← side_proc signaler (goes_on none) before
  (last, calls2) ← side_proc signaler side after
  let srv_events = create_epoll_event_test srv_fd (bit_or (bit_or epollin epollet) epollwakeup)
  let signaler_events = create_epoll_event_test signaler epollin
  elim last [
    | goes_on event ↦ none
    | ended ↦ some (
        (epoll_create ∷ create_server_socket srv_fd 7999)
        ++ (epoll_add ep_instance srv_fd srv_events.events ∷ eventfd 1 ∷ [])
        ++ calls1
        ++ (epoll_add ep_instance signaler signaler_events.events ∷ [])
        ++ calls2
        ++ close_fd signaler ∷ close_fd ep_instance ∷ [])
  ]

-- `side_proc` of Epoll_test.c: whether it has returned, when its calls of `epoll_wait` return 0 or
-- not.
pub test_side_proc : (timed_out : List Bool) → Bool
test_side_proc [] = false
test_side_proc (zero_events ∷ waits) =
    let rest = test_side_proc waits in if zero_events then rest else true

-- `main` of Epoll_test.c, once its thread has returned.
pub epoll_test : (ep_instance signaler : ℕ) → List Call
epoll_test ep_instance signaler =
    let signaler_events = create_epoll_event_test signaler epollin in
    epoll_create
    ∷ eventfd 2
    ∷ epoll_add ep_instance signaler signaler_events.events
    ∷ epoll_del ep_instance signaler
    ∷ close_fd signaler
    ∷ close_fd ep_instance
    ∷ []
