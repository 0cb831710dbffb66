-- ===== src/Endpoint/Hungups.antt =====
-- `endpoint_close_hungups`: the clients in the disconnection queue are disconnected.
use c10k.Base.{
  ℕ, zero, suc, ◌+◌, ◌^◌, ◌<◌, ◌≡◌, refl, ap, ap₂, ◌∙◌, Bool, true, false, ◌||◌, Option, some, List,
  [], ◌∷◌, ◌++◌, length, arith, Bool-cases, inl, inr, ◌==◌, if◌then◌else◌,
}
use mathlib.Core.List.{append-nil, append_assoc}
use c10k.Base.Memory.{Malloc, Gives}
use c10k.Boolset.{Boolset}
use c10k.Boolset.Valid.{IsValid, has}
use c10k.Stack.{Stack, Heap}
use c10k.Stack.Segment.{Nodes, Holds}
use c10k.Stack.Laws.{pop-Holds, is_empty-cons, is_empty-nil}
use c10k.Endpoint.{
  Endpoint, Syscall, epoll_del, shutdown, close_fd, unlock_queue, ask, hang_up, disconnect_client,
  deregister_client, hungups_loop, close_hungups,
}
use c10k.Endpoint.Open.{IsOpen, connected, SameFds, lock_queue-eq}
use c10k.Endpoint.Clients.{mark_client-has}

-- The calls that end the connections of the queued clients, from the top of the stack.
unfoldable pub goodbyes : (ep_selector : ℕ) → Nodes → List Syscall
goodbyes ep_selector [] = []
goodbyes ep_selector ((_, fd) ∷ nodes) =
    (epoll_del ep_selector fd ∷ shutdown fd ∷ close_fd fd ∷ []) ++ goodbyes ep_selector nodes

abbrev pub is_queued : ℕ → Nodes → Bool
is_queued fd [] = false
is_queued fd ((_, v) ∷ nodes) = (fd == v) || is_queued fd nodes

-- Every queued number is a descriptor.
abbrev pub Small : Nodes → Type 0
Small [] = Unit
Small ((_, v) ∷ nodes) = (v < 2 ^ 64) × Small nodes

-- What the loop leaves.
record Served (e : Endpoint) (nodes : Nodes) (count : ℕ) (out : Option (ℕ × Endpoint))
    : Type 0 where
  clients : Boolset
  heap : Heap
  queue : Stack
  returns :
      out
      ≡ some (
        count + length nodes,
        record e {
          connected_clients_fds = clients;
          heap = heap;
          disconnect_queue = queue;
          calls = e.calls ++ goodbyes e.ep_selector nodes;
        },
      )
  valid : IsValid clients
  holds : Holds heap queue []
  records : (j : ℕ) → has clients j ≡ (if is_queued j nodes then false else connected e j)

none_before : (n : ℕ) → 0 + n ≡ n
none_before n = omega arith

pub queued-cons :
    (j v : ℕ) (rest was : Bool)
    → (if rest then false else (if j == v then false else was))
      ≡ (if (j == v) || rest then false else was)
queued-cons j v true was = elim (Bool-cases (j == v)) [ inl e ↦ rw e | inr e ↦ rw e ]
queued-cons j v false was = elim (Bool-cases (j == v)) [ inl e ↦ rw e | inr e ↦ rw e ]

module _ (malloc : Malloc) (gives : Gives malloc (2 ^ 61)) where
  -- One client, while the queue may be locked.
  disconnect_client-has :
      (e : Endpoint) (fd : ℕ)
      → IsValid e.connected_clients_fds
      → e.connected_clients_lock ≡ false
      → fd < 2 ^ 64
      → (clients : Boolset) × (disconnect_client malloc e fd
          ≡ some (record e { connected_clients_fds = clients; calls = e.calls ++ hang_up e fd }))
        × IsValid clients
        × ((j : ℕ) → has clients j ≡ (if j == fd then false else connected e j))
  unfolding disconnect_client deregister_client ask
  disconnect_client-has e fd v free small =
      let (clients, runs, v', one) = mark_client-has malloc gives e fd 0 v free small in
      (clients, rw runs refl, v', one)

  hungups_loop-Served :
      (nodes : Nodes) (fuel count : ℕ) (e : Endpoint)
      → IsValid e.connected_clients_fds
      → e.connected_clients_lock ≡ false
      → Holds e.heap e.disconnect_queue nodes
      → Small nodes
      → length nodes < fuel
      → Served e nodes count (hungups_loop malloc fuel count e)
  unfolding hungups_loop goodbyes
  hungups_loop-Served nodes zero count e v free holds small enough = absurd (omega arith)
  hungups_loop-Served [] (suc fuel) count e v free holds small enough = record {
    clients = e.connected_clients_fds;
    heap = e.heap;
    queue = e.disconnect_queue;
    returns =
        rw (is_empty-nil holds, hungups_loop, append-nil) (ap (λ n. some (n, e)) (omega arith));
    valid = v;
    holds = holds;
    records = λ j. refl;
  }
  hungups_loop-Served ((a, fd) ∷ nodes) (suc fuel) count e v free holds (low, small) enough =
      let (heap', queue', pops, holds', _, _) = pop-Holds holds in
      let popped = record e { heap = heap'; disconnect_queue = queue' } in
      let (clients, runs, v', one) = disconnect_client-has popped fd v free low in
      let e1 = record popped { connected_clients_fds = clients; calls = e.calls ++ hang_up e fd } in
      let later =
        hungups_loop-Served nodes fuel (count + 1) e1 v' free holds' small (omega arith) in
      record {
        clients = later.clients;
        heap = later.heap;
        queue = later.queue;
        returns =
            rw (is_empty-cons a fd nodes holds, hungups_loop, pops, runs)
              (later.returns
                ∙ ap₂
                    (λ n calls. some (
                      n,
                      record e {
                        connected_clients_fds = later.clients;
                        heap = later.heap;
                        disconnect_queue = later.queue;
                        calls = calls;
                      },
                    ))
                    (omega arith)
                    (append_assoc (e.calls) (hang_up e fd) (goodbyes e.ep_selector nodes)));
        valid = later.valid;
        holds = later.holds;
        records = λ j.
            later.records j
            ∙ ap (λ b. if is_queued j nodes then false else b) (one j)
            ∙ queued-cons j fd (is_queued j nodes) (connected e j);
      }

  -- On an open endpoint with memory, whose disconnection queue holds descriptors below `2 ^ 64`,
  -- `endpoint_close_hungups` with more fuel than the queue has nodes ends, returns the number of
  -- nodes and leaves the queue empty. It ends the connection of each queued client, from the top
  -- of the stack, takes exactly the queued clients off the record, and keeps the endpoint's own
  -- descriptors.
  pub close_hungups-connected :
      (fuel : ℕ) (e : Endpoint) (nodes : Nodes)
      → IsOpen e nodes
      → Small nodes
      → length nodes < fuel
      → (e' : Endpoint) × (close_hungups malloc fuel e ≡ some (length nodes, e'))
        × IsOpen e' []
        × (e'.calls ≡ e.calls ++ goodbyes e.ep_selector nodes)
        × ((j : ℕ) → connected e' j ≡ (if is_queued j nodes then false else connected e j))
        × SameFds e e'
  unfolding close_hungups unlock_queue
  close_hungups-connected fuel e nodes o small enough =
      let locked = record e { disconnect_queue_lock = true } in
      let s =
        hungups_loop-Served nodes fuel 0 locked o.clients o.clients_free o.queue small enough in
      (
        record e {
          connected_clients_fds = s.clients;
          heap = s.heap;
          disconnect_queue = s.queue;
          disconnect_queue_lock = false;
          calls = e.calls ++ goodbyes e.ep_selector nodes;
        },
        rw (lock_queue-eq e o.queue_free, s.returns, none_before (length nodes)) refl,
        record {
          clients = s.valid;
          clients_free = o.clients_free;
          queue_free = refl;
          queue = s.holds;
        },
        refl,
        s.records,
        (refl, refl, refl, refl),
      )
