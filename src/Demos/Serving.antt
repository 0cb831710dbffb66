-- ===== src/Demos/Serving.antt =====
-- Which clients `side_proc` of Server_example.c serves.
use c10k.Base.{
  ℕ, ◌≡◌, ◌≢◌, refl, ap, sym, true, false, Option, none, some, List, [], ◌∷◌, ◌++◌, arith, ◌==◌,
}
use c10k.Demos.{
  Call, socket, set_nonblock, bind, listen, send_greeting, shutdown_write, close_fd, Wait,
  timed_out, interrupted, failed, ready, flush_and_close, greet, ended, goes_on, side_round,
  side_step, side_proc, server_example, create_server_socket, create_epoll_event_test, epoll_create,
  epoll_add, eventfd,
}

-- Nothing failed, and no event was the signaler's.
abbrev pub Serves : (signaler : ℕ) → List Wait → Type 0
Serves signaler [] = Unit
Serves signaler (timed_out ∷ waits) = Serves signaler waits
Serves signaler (interrupted ∷ waits) = Serves signaler waits
Serves signaler (failed incoming ∷ waits) = ⊥
Serves signaler (ready fd incoming ∷ waits) = (fd ≢ signaler) × Serves signaler waits

-- All sockets that were accepted, in order.
pub accepted : List Wait → List ℕ
accepted [] = []
accepted (timed_out ∷ waits) = accepted waits
accepted (interrupted ∷ waits) = accepted waits
accepted (failed incoming ∷ waits) = incoming ++ accepted waits
accepted (ready fd incoming ∷ waits) = incoming ++ accepted waits

-- What a server that sends its message to each of these sockets, shuts it down and closes it asks of
-- the system.
abbrev pub served : List ℕ → List Call
served [] = []
served (socket_fd ∷ rest) =
    send_greeting socket_fd ∷ shutdown_write socket_fd ∷ close_fd socket_fd ∷ served rest

greet-served : (incoming : List ℕ) → greet incoming ≡ served incoming
unfolding greet flush_and_close
greet-served [] = refl
greet-served (s ∷ incoming) =
    ap (λ l. send_greeting s ∷ shutdown_write s ∷ close_fd s ∷ l) (greet-served incoming)

greet-append : (xs ys : List ℕ) → greet (xs ++ ys) ≡ greet xs ++ greet ys
unfolding greet flush_and_close
greet-append [] ys = refl
greet-append (x ∷ xs) ys =
    ap (λ l. send_greeting x ∷ shutdown_write x ∷ close_fd x ∷ l) (greet-append xs ys)

-- The same without the event of the signaler.
side_proc-goes_on :
    (signaler : ℕ) (event : Option ℕ) (waits : List Wait)
    → Serves signaler waits
    → (event' : Option ℕ) × (side_proc signaler (goes_on event) waits
        ≡ some (goes_on event', greet (accepted waits)))
unfolding side_proc side_step side_round accepted greet
side_proc-goes_on signaler event [] s = (event, refl)
side_proc-goes_on signaler event (timed_out ∷ waits) s =
    let (event', runs) = side_proc-goes_on signaler event waits s in (event', rw runs)
side_proc-goes_on signaler event (interrupted ∷ waits) s =
    let (event', runs) = side_proc-goes_on signaler event waits s in (event', rw runs)
side_proc-goes_on signaler event (failed new ∷ waits) s = elim s [ ]
side_proc-goes_on signaler event (ready fd new ∷ waits) (ne, s) =
    let miss : (fd == signaler) ≡ false = ground arith in
    let (event', runs) = side_proc-goes_on signaler (some fd) waits s in
    (
      event',
      rw (miss, runs)
          (ap (λ l. some (goes_on event', l)) (sym (greet-append new (accepted waits)))),
    )

-- The loop ends at the event of the signaler.
side_proc-accepted :
    (signaler : ℕ) (event : Option ℕ) (waits : List Wait) (incoming : List ℕ) (rest : List Wait)
    → Serves signaler waits
    → side_proc signaler (goes_on event) (waits ++ ready signaler incoming ∷ rest)
      ≡ some (ended, greet (accepted waits))
unfolding side_proc side_step side_round accepted greet
side_proc-accepted signaler event [] incoming rest s =
    let hit : (signaler == signaler) ≡ true = ground arith in rw hit refl
side_proc-accepted signaler event (timed_out ∷ waits) incoming rest s =
    rw (side_proc-accepted signaler event waits incoming rest s)
side_proc-accepted signaler event (interrupted ∷ waits) incoming rest s =
    rw (side_proc-accepted signaler event waits incoming rest s)
side_proc-accepted signaler event (failed new ∷ waits) incoming rest s = elim s [ ]
side_proc-accepted signaler event (ready fd new ∷ waits) incoming rest (ne, s) =
    let miss : (fd == signaler) ≡ false = ground arith in
    rw (miss, side_proc-accepted signaler (some fd) waits incoming rest s)
      (ap (λ l. some (ended, l)) (sym (greet-append new (accepted waits))))

module _ (ep_instance srv_fd signaler : ℕ) (before : List Wait)
    (quiet : Serves signaler before) where
  -- While no call of `epoll_wait` fails with an error other than EINTR and no event is the signaler's,
  -- side_proc sends its message to each accepted client, shuts its socket down and closes it, once, in
  -- the order of acceptance. At the first event of the signaler, which comes after `main` has put it
  -- into the epoll instance, the thread ends, whatever would come after it, and `main` returns: its
  -- calls and the thread's are the set-up, the clients before, the signaler, the clients after, and
  -- the closing of the signaler and the epoll instance.
  pub server_example-accepted :
      (during : List Wait) (incoming : List ℕ) (rest : List Wait)
      → Serves signaler during
      → server_example ep_instance srv_fd signaler before (during ++ ready signaler incoming ∷ rest)
        ≡ some (
            (epoll_create
              ∷ socket
              ∷ set_nonblock srv_fd
              ∷ bind srv_fd 7999
              ∷ listen srv_fd 512
              ∷ epoll_add ep_instance srv_fd 0xA0000001
              ∷ eventfd 1
              ∷ [])
            ++ served (accepted before)
            ++ (epoll_add ep_instance signaler 1 ∷ [])
            ++ served (accepted during)
            ++ close_fd signaler ∷ close_fd ep_instance ∷ [])
  unfolding server_example create_epoll_event_test create_server_socket
  server_example-accepted during incoming rest s =
      let (event, runs) = side_proc-goes_on signaler none before quiet in
      rw
        (
          runs,
          side_proc-accepted signaler event during incoming rest s,
          greet-served (accepted before),
          greet-served (accepted during),
        )
        refl

  -- While no event is the signaler's and no call fails, `main` does not return.
  pub server_example-waits :
      (after : List Wait)
      → Serves signaler after
      → server_example ep_instance srv_fd signaler before after ≡ none
  unfolding server_example create_epoll_event_test
  server_example-waits after s =
      let (event, runs) = side_proc-goes_on signaler none before quiet in
      let (event', runs') = side_proc-goes_on signaler event after s in rw (runs, runs') refl
