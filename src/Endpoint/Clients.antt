-- ===== src/Endpoint/Clients.antt =====
-- Clients of an endpoint: registering, disconnecting one, disconnecting all.
use c10k.Base.{
  ℕ, ◌*◌, ◌^◌, ◌<◌, ◌≡◌, refl, ap, ◌∙◌, true, false, not, none, some, [], ◌++◌, length, arith,
  dec_lt, ◌==◌, if◌then◌else◌,
}
use c10k.Base.Memory.{Malloc, Gives}
use c10k.Boolset.{Boolset}
use c10k.Boolset.Valid.{IsValid, has, has_beyond}
use c10k.Boolset.Set.{set-has}
use c10k.Boolset.Foreach.{foreach-eq-scan}
use c10k.Stack
use c10k.Stack.{Ptr, Stack, Heap}
use c10k.Stack.Segment.{Nodes, Holds, is_node}
use c10k.Stack.Laws.{empty-Holds}
use c10k.Endpoint.{
  Endpoint, lock_clients, unlock_clients, unlock_queue, ask, clear_disconnection_queue, mark_client,
  register_client, deregister_client, hang_up, disconnect_client, disconnect_all_foreach,
  disconnect_all_clients,
}
use c10k.Endpoint.Open.{IsOpen, connected, SameFds, with_clients, lock_clients-eq, lock_queue-eq}
use c10k.Endpoint.Drain.{farewells, farewells-later, clients_of, foreach-IsTame, scan-Drained}

-- `endpoint_clear_disconnection_queue` frees the nodes of the queue, and no other memory, and lets go
-- of its mutex.
pub clear_disconnection_queue-Holds :
    (fuel : ℕ) (e : Endpoint) (nodes : Nodes)
    → e.disconnect_queue_lock ≡ false
    → Holds e.heap e.disconnect_queue nodes
    → length nodes < fuel
    → (heap' : Heap) × (queue' : Stack) × (clear_disconnection_queue fuel e
        ≡ some
            (record e { heap = heap'; disconnect_queue = queue'; disconnect_queue_lock = false }))
      × Holds heap' queue' []
      × ((a : Ptr) → heap' a ≡ (if is_node a nodes then none else e.heap a))
unfolding clear_disconnection_queue unlock_queue Stack.destroy
clear_disconnection_queue-Holds fuel e nodes free holds enough =
    let (heap', queue', empties, holds', freed) = empty-Holds fuel nodes holds enough in
    (heap', queue', rw (lock_queue-eq e free, empties) refl, holds', freed)

module _ (malloc : Malloc) (gives : Gives malloc (2 ^ 61)) where
  -- What `boolset_set` under the lock does.
  pub mark_client-has :
      (e : Endpoint) (fd val : ℕ)
      → IsValid e.connected_clients_fds
      → e.connected_clients_lock ≡ false
      → fd < 2 ^ 64
      → (clients : Boolset) × (mark_client malloc e fd val ≡ some (with_clients e clients))
        × IsValid clients
        × ((j : ℕ) → has clients j ≡ (if j == fd then not (val == 0) else connected e j))
  unfolding mark_client lock_clients unlock_clients
  mark_client-has e fd val v free small =
      let (clients, runs, v', _, one) =
        set-has malloc e.connected_clients_fds fd val gives v small in
      (clients, rw (free, runs), v', one)

  -- On an open endpoint with memory, `endpoint_register_client` of a descriptor below `2 ^ 64` puts
  -- the client on record, and no other client's record and not the disconnection queue changes.
  pub register_client-connected :
      (e : Endpoint) (nodes : Nodes) (fd : ℕ)
      → IsOpen e nodes
      → fd < 2 ^ 64
      → (e' : Endpoint) × (register_client malloc e fd ≡ some e')
        × IsOpen e' nodes
        × ((j : ℕ) → connected e' j ≡ (if j == fd then true else connected e j))
  unfolding register_client
  register_client-connected e nodes fd o small =
      let (clients, runs, v, one) = mark_client-has e fd 1 o.clients o.clients_free small in
      (
        with_clients e clients,
        runs,
        record {
          clients = v;
          clients_free = o.clients_free;
          queue_free = o.queue_free;
          queue = o.queue;
        },
        one,
      )

  -- On an open endpoint with memory, `endpoint_disconnect_client` of a descriptor below `2 ^ 64`
  -- takes the client off the record, and its socket leaves the selector, is shut down and closed,
  -- in that order; no other client's record and not the disconnection queue changes, nor a
  -- descriptor of the endpoint.
  pub disconnect_client-connected :
      (e : Endpoint) (nodes : Nodes) (fd : ℕ)
      → IsOpen e nodes
      → fd < 2 ^ 64
      → (e' : Endpoint) × (disconnect_client malloc e fd ≡ some e')
        × IsOpen e' nodes
        × (e'.calls ≡ e.calls ++ hang_up e fd)
        × ((j : ℕ) → connected e' j ≡ (if j == fd then false else connected e j))
        × SameFds e e'
  unfolding disconnect_client deregister_client ask
  disconnect_client-connected e nodes fd o small =
      let (clients, runs, v, one) = mark_client-has e fd 0 o.clients o.clients_free small in
      rw runs (
        record e { connected_clients_fds = clients; calls = e.calls ++ hang_up e fd },
        refl,
        record {
          clients = v;
          clients_free = o.clients_free;
          queue_free = o.queue_free;
          queue = o.queue;
        },
        refl,
        one,
        (refl, refl, refl, refl),
      )

  -- On an open endpoint with memory, `endpoint_disconnect_all_clients` with more fuel than the
  -- disconnection queue has nodes ends. Each client on record is taken off it and its socket
  -- leaves the selector, is shut down and closed, in ascending order of the descriptors; then no
  -- client is left on record, the disconnection queue is empty and its nodes, and no other memory,
  -- have been freed, both mutexes are free, and the descriptors of the endpoint are the same.
  pub disconnect_all_clients-connected :
      (fuel : ℕ) (e : Endpoint) (nodes : Nodes)
      → IsOpen e nodes
      → length nodes < fuel
      → (e' : Endpoint) × (disconnect_all_clients malloc fuel e ≡ some e')
        × IsOpen e' []
        × (e'.calls ≡ e.calls ++ farewells e (e.connected_clients_fds.size * 64) 0)
        × ((j : ℕ) → connected e' j ≡ false)
        × SameFds e e'
        × ((a : Ptr) → e'.heap a ≡ (if is_node a nodes then none else e.heap a))
  unfolding disconnect_all_clients unlock_clients
  disconnect_all_clients-connected fuel e nodes o enough =
      let locked = record e { connected_clients_lock = true } in
      let n = e.connected_clients_fds.size * 64 in
      let d = scan-Drained malloc gives n 0 locked o.clients in
      let loop =
        foreach-eq-scan clients_of (disconnect_all_foreach malloc) (foreach-IsTame malloc gives)
          locked o.clients in
      let drained = record e {
        connected_clients_fds = d.clients;
        connected_clients_lock = false;
        calls = e.calls ++ farewells locked n 0;
      } in
      let (heap', queue', clears, holds, freed) =
        clear_disconnection_queue-Holds fuel drained nodes o.queue_free o.queue enough in
      (
        record drained { disconnect_queue_lock = false; disconnect_queue = queue'; heap = heap' },
        rw (lock_clients-eq e o.clients_free, loop, d.returns, clears) refl,
        record { clients = d.valid; clients_free = refl; queue_free = refl; queue = holds },
        ap (λ l. e.calls ++ l) (farewells-later e locked n 0 refl (λ j h. refl)),
        λ j. elim (dec_lt j n) [
          | yes low ↦ d.gone j (omega arith) (omega arith)
          | no high ↦
              d.beyond j (omega arith)
              ∙ has_beyond e.connected_clients_fds j (omega (arith, o.clients.size_eq))
        ],
        (refl, refl, refl, refl),
        freed,
      )
