-- ===== src/Endpoint/Lifetime.antt =====
-- An endpoint from `endpoint_create` to `endpoint_close`, with any calls of its functions between.
use c10k.Base.{
  ℕ, ◌*◌, ◌^◌, ◌<◌, ◌≡◌, ◌≢◌, refl, sym, ap, ap₂, subst, ◌∙◌, Bool, true, false, ◌&&◌, Option, none,
  some, if◌then◌else◌, List, [], ◌∷◌, ◌++◌, length, arith, bit_or, ◌==◌, Bool-cases, inl, inr,
  dec_lt,
}
use mathlib.Core.List.{append_assoc}
use c10k.Base.Memory.{◌>>=◌, Malloc, Gives}
use c10k.Boolset.Valid.{IsValid, has, create-IsValid, has_beyond}
use c10k.Boolset
use c10k.Boolset.{Boolset}
use c10k.Stack
use c10k.Stack.{Heap, Ptr}
use c10k.Stack.Segment.{Nodes, Holds, is_node}
use c10k.Stack.Laws.{create-Holds}
use c10k.Endpoint.{
  Endpoint, Syscall, epollin, epoll_create, eventfd, epoll_add, epollhup, epoll_del, close_fd,
  create, create_server_socket, create_epoll_event, ask, unlock_clients, close,
}
use c10k.Endpoint.Open.{IsOpen, connected, lock_clients-eq}
use c10k.Endpoint.Drain.{farewells, farewells-later}
use c10k.Endpoint.Clients.{clear_disconnection_queue-Holds, disconnect_all_clients-connected}
use c10k.Endpoint.Watched.{watched, watched-append, watched-farewells, watched-farewells_out}
use c10k.Endpoint.Calls.{Call, run, queued_after_all, AllAllowed, Tracks, run-Tracks}

and_false : (b : Bool) → (b && false) ≡ false
and_false true = refl
and_false false = refl

module _ (malloc : Malloc) (gives : Gives malloc (2 ^ 61)) where
  module _ (heap : Heap) (srv_fd ep_listener ep_selector shutdown_fd port_number : ℕ)
      (ipv6 : Bool) where
    abbrev creates : Option Endpoint
    creates = create malloc heap srv_fd ep_listener ep_selector shutdown_fd port_number ipv6

    opened : Boolset → Endpoint
    unfolding create_server_socket create_epoll_event
    opened clients = record {
      srv_fd = srv_fd;
      ep_listener = ep_listener;
      ep_selector = ep_selector;
      shutdown_fd = shutdown_fd;
      connected_clients_fds = clients;
      connected_clients_lock = false;
      disconnect_queue_lock = false;
      disconnect_queue = Stack.create;
      heap = heap;
      calls =
          create_server_socket srv_fd port_number ipv6
          ++ epoll_create
            ∷ epoll_create
            ∷ eventfd
            ∷ epoll_add ep_listener srv_fd (bit_or epollin epollhup)
            ∷ epoll_add ep_listener shutdown_fd epollin
            ∷ epoll_add ep_selector shutdown_fd epollin
            ∷ [];
    }

    opened-Tracks :
        (b : Boolset)
        → ep_listener ≢ ep_selector
        → ((fd : ℕ) → has b fd ≡ false)
        → Tracks (opened b)
    unfolding opened watched
    opened-Tracks b ne none_in fd other =
        let apart : (ep_listener == ep_selector) ≡ false = ground arith in
        let elsewhere : (fd == shutdown_fd) ≡ false = ground arith in
        rw (apart, elsewhere, none_in fd, and_false (ep_selector == ep_selector))

    create-Tracks :
        ep_listener ≢ ep_selector
        → (e : Endpoint) × (creates ≡ some e)
          × IsOpen e []
          × Tracks e
          × (e.srv_fd ≡ srv_fd)
          × (e.ep_listener ≡ ep_listener)
          × (e.ep_selector ≡ ep_selector)
          × (e.shutdown_fd ≡ shutdown_fd)
    unfolding create opened
    create-Tracks ne =
        let (b, makes, v, size, none_in) = create-IsValid malloc (gives 8 (omega arith)) in
        (
          opened b,
          rw makes refl,
          record { clients = v; clients_free = refl; queue_free = refl; queue = create-Holds heap },
          opened-Tracks b ne none_in,
          refl,
          refl,
          refl,
          refl,
        )

-- The calls of `endpoint_close` behind the pass over the clients.
abbrev ending : (srv_fd ep_listener ep_selector shutdown_fd : ℕ) → List Syscall
ending srv_fd ep_listener ep_selector shutdown_fd =
    epoll_del ep_listener srv_fd
    ∷ epoll_del ep_listener shutdown_fd
    ∷ epoll_del ep_selector shutdown_fd
    ∷ close_fd ep_listener
    ∷ close_fd ep_selector
    ∷ close_fd shutdown_fd
    ∷ []

abbrev closing : Endpoint → List Syscall
closing e = ending e.srv_fd e.ep_listener e.ep_selector e.shutdown_fd

endings :
    {a a' b b' c c' d d' : ℕ}
    → a ≡ a'
    → b ≡ b'
    → c ≡ c'
    → d ≡ d'
    → ending a b c d ≡ ending a' b' c' d'
endings p q r s = cc

watched-closing :
    (e : Endpoint) (fd : ℕ) (was : Bool)
    → (fd ≢ e.shutdown_fd → was ≡ false)
    → watched e.ep_selector fd was (closing e) ≡ false
unfolding watched
watched-closing e fd was h = elim (Bool-cases (fd == e.shutdown_fd)) [
  | inl at ↦ ground arith
  | inr other ↦ let out : was ≡ false = h (λ x. ground arith) in ground arith
]

-- The pass over the clients takes all of them out of the selector.
drained-unwatched :
    (e : Endpoint) (fd : ℕ) (was : Bool)
    → IsValid e.connected_clients_fds
    → was ≡ connected e fd
    → watched e.ep_selector fd was (farewells e (e.connected_clients_fds.size * 64) 0) ≡ false
drained-unwatched e fd was v same = elim (Bool-cases (connected e fd)) [
  | inl on ↦ elim (dec_lt fd (e.connected_clients_fds.size * 64)) [
    | yes low ↦
        watched-farewells e fd (e.connected_clients_fds.size * 64) 0 was on (omega arith)
          (omega arith)
    | no high ↦ let off = has_beyond e.connected_clients_fds fd (omega (arith, v.size_eq)) in cc
  ]
  | inr off ↦
      let out : was ≡ false = same ∙ off in
      rw out (watched-farewells_out e fd (e.connected_clients_fds.size * 64) 0)
]

module _ (malloc : Malloc) (gives : Gives malloc (2 ^ 61)) where
  close-unwatched :
      (fuel : ℕ) (e : Endpoint) (nodes : Nodes)
      → IsOpen e nodes
      → Tracks e
      → length nodes < fuel
      → (e' : Endpoint) × (close malloc fuel e ≡ some e')
        × (e'.connected_clients_fds.cells ≡ [])
        × Holds e'.heap e'.disconnect_queue []
        × ((a : Ptr) → e'.heap a ≡ (if is_node a nodes then none else e.heap a))
        × (e'.calls
            ≡ e.calls
              ++ close_fd e.srv_fd
                ∷ (farewells e (e.connected_clients_fds.size * 64) 0
                    ++ ending e.srv_fd e.ep_listener e.ep_selector e.shutdown_fd))
        × ((fd : ℕ) → watched e.ep_selector fd false e'.calls ≡ false)
  unfolding close ask unlock_clients Boolset.destroy watched
  close-unwatched fuel e nodes o t enough =
      let e0 = record e { calls = e.calls ++ close_fd e.srv_fd ∷ [] } in
      let o0 : IsOpen e0 nodes = record {
        clients = o.clients;
        clients_free = o.clients_free;
        queue_free = o.queue_free;
        queue = o.queue;
      } in
      let (e1, runs, o1, calls, gone, same, released) =
        disconnect_all_clients-connected malloc gives fuel e0 nodes o0 enough in
      let e2 = record e1 { calls = e1.calls ++ closing e1 } in
      let freed = record e2 {
        connected_clients_fds = Boolset.destroy e1.connected_clients_fds;
        connected_clients_lock = false;
      } in
      let n = e.connected_clients_fds.size * 64 in
      let asked : e1.calls ++ closing e1
          ≡ e.calls
            ++ close_fd e.srv_fd
              ∷ (farewells e n 0 ++ ending e.srv_fd e.ep_listener e.ep_selector e.shutdown_fd) =
        rw
          (
            calls,
            same.0,
            same.1,
            same.2,
            same.3,
            farewells-later e e0 n 0 refl (λ j h. refl),
            append_assoc,
          )
          (append_assoc e.calls (close_fd e.srv_fd ∷ []) _) in
      let (heap', queue', clears, holds, again) =
        clear_disconnection_queue-Holds fuel freed [] o1.queue_free o1.queue (omega arith) in
      (
        record freed { heap = heap'; disconnect_queue = queue'; disconnect_queue_lock = false },
        rw (runs, lock_clients-eq e2 o1.clients_free, clears) refl,
        refl,
        holds,
        λ a. again a ∙ released a,
        asked,
        λ fd.
            watched-append e.ep_selector fd false e1.calls (closing e1)
            ∙ subst (λ k. watched k fd (watched k fd false e1.calls) (closing e1) ≡ false) same.2
                (watched-closing e1 fd (watched e1.ep_selector fd false e1.calls) (λ ne.
                  rw
                    (
                      same.2,
                      calls,
                      watched-append e.ep_selector fd false e0.calls
                          (farewells e0 (e.connected_clients_fds.size * 64) 0),
                    )
                    (drained-unwatched e0 fd (watched e.ep_selector fd false e0.calls) o.clients (
                      watched-append e.ep_selector fd false e.calls (close_fd e.srv_fd ∷ [])
                      ∙ t fd (λ x. ne (x ∙ sym same.3)))))),
      )

  module _ (heap : Heap) (srv_fd ep_listener ep_selector shutdown_fd port_number : ℕ) (ipv6 : Bool)
      (calls : List Call) (distinct : ep_listener ≢ ep_selector)
      (allowed : (e : Endpoint)
        → create malloc heap srv_fd ep_listener ep_selector shutdown_fd port_number ipv6 ≡ some e
        → AllAllowed malloc e [] calls) where
    abbrev created : Option Endpoint
    created = create malloc heap srv_fd ep_listener ep_selector shutdown_fd port_number ipv6

    -- From `endpoint_create` on, with memory and two distinct epoll instances, after any sequence of
    -- calls of `endpoint_accept`, `endpoint_wait_event`, `endpoint_close_hungups` and
    -- `endpoint_disconnect_client`, each with descriptors below `2 ^ 64`, no EPOLLHUP on the listener,
    -- unused addresses from `malloc` and enough fuel where it is made, `endpoint_close` with more fuel
    -- than the disconnection queue has nodes ends. It closes the server socket, ends the connection of
    -- each client on record in ascending order, takes the server socket and the shutdown
    -- descriptor out of the epoll instances, and closes both instances and the shutdown descriptor,
    -- with no other call. The record of clients is freed, and so are the nodes of the disconnection queue,
    -- and no other node; the queue is empty; and of all descriptors that the selector was ever told
    -- to watch, it watches none.
    pub close-run :
        (fuel : ℕ)
        → length (queued_after_all [] calls) < fuel
        → (e1 : Endpoint) × (e : Endpoint) × ((created >>= λ e0. run malloc e0 calls) ≡ some e1)
          × (close malloc fuel e1 ≡ some e)
          × (e.connected_clients_fds.cells ≡ [])
          × Holds e.heap e.disconnect_queue []
          × ((a : Ptr)
              → e.heap a ≡ (if is_node a (queued_after_all [] calls) then none else e1.heap a))
          × (e.calls
              ≡ e1.calls
                ++ close_fd srv_fd
                  ∷ (farewells e1 (e1.connected_clients_fds.size * 64) 0
                      ++ epoll_del ep_listener srv_fd
                        ∷ epoll_del ep_listener shutdown_fd
                        ∷ epoll_del ep_selector shutdown_fd
                        ∷ close_fd ep_listener
                        ∷ close_fd ep_selector
                        ∷ close_fd shutdown_fd
                        ∷ []))
          × ((fd : ℕ) → watched ep_selector fd false e.calls ≡ false)
    close-run fuel enough =
        let (e0, creates, o0, t0, srv0, listener0, sel0, shutdown0) =
          create-Tracks malloc gives heap srv_fd ep_listener ep_selector shutdown_fd port_number
            ipv6 distinct in
        let (e1, runs, o1, t1, same) =
          run-Tracks malloc gives e0 [] calls o0 t0 (allowed e0 creates) in
        let (e, closes, freed, empty, released, asked, gone) =
          close-unwatched fuel e1 (queued_after_all [] calls) o1 t1 enough in
        let srv : e1.srv_fd ≡ srv_fd = same.0 ∙ srv0 in
        let listener : e1.ep_listener ≡ ep_listener = same.1 ∙ listener0 in
        let selector : e1.ep_selector ≡ ep_selector = same.2 ∙ sel0 in
        let shutdown : e1.shutdown_fd ≡ shutdown_fd = same.3 ∙ shutdown0 in
        (
          e1,
          e,
          rw (creates, runs) refl,
          closes,
          freed,
          empty,
          released,
          asked
              ∙ ap (λ l. e1.calls ++ l)
                  (ap₂
                    (λ k l. close_fd k ∷ (farewells e1 (e1.connected_clients_fds.size * 64) 0 ++ l))
                    srv (endings srv listener selector shutdown)),
          subst (λ k. (fd : ℕ) → watched k fd false e.calls ≡ false) selector gone,
        )
