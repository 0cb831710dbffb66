-- ===== src/Endpoint/Calls.antt =====
-- Calls of an endpoint's functions in any order, and what holds between them.
use c10k.Base.{
  ℕ, ◌^◌, ◌<◌, ◌≡◌, ◌≢◌, refl, ap, sym, ◌∙◌, false, Option, none, some, List, [], ◌∷◌, ◌++◌, length,
  take, bit_and,
}
use mathlib.Core.List.{append-nil}
use c10k.Base.Memory.{◌>>=◌, Malloc, Gives}
use c10k.Boolset.Valid.{has}
use c10k.Stack.{Ptr}
use c10k.Stack.Segment.{Nodes}
use c10k.Endpoint.{
  Endpoint, EpollEvent, Syscall, epollhup, event_limit, hang_up, accept, wait_event, close_hungups,
  disconnect_client,
}
use c10k.Endpoint.Open.{IsOpen, connected, SameFds, SameFds-trans}
use c10k.Endpoint.Clients.{disconnect_client-connected}
use c10k.Endpoint.Accepts.{AllSmall, welcomes, accept-connected}
use c10k.Endpoint.Hungups.{Small, goodbyes, close_hungups-connected}
use c10k.Endpoint.Waits.{hung, Unused, wait_event-hung}
use c10k.Endpoint.Watched.{
  watched, watched-append, watched-welcomes, watched-goodbyes, watched-hang_up,
}

-- One call of an endpoint's function, with what the system answers to it.
pub data Call : Type 0 where
  accepts : (event : EpollEvent) (incoming : List ℕ) (new_fds_size events_flags : ℕ) → Call
  waits : (pending : Option (List (EpollEvent × Ptr))) (max_events : ℕ) → Call
  closes_hungups : (fuel : ℕ) → Call
  disconnects : (fd : ℕ) → Call

module _ (malloc : Malloc) where
  -- The endpoint after the call.
  pub perform : Endpoint → Call → Option Endpoint
  perform e (accepts event incoming new_fds_size events_flags) = do
    (_, e') ← accept malloc e (some event) incoming new_fds_size events_flags
    some e'
  perform e (waits pending max_events) = do (_, e') ← wait_event e pending max_events; some e'
  perform e (closes_hungups fuel) = do (_, e') ← close_hungups malloc fuel e; some e'
  perform e (disconnects fd) = disconnect_client malloc e fd

  pub run : Endpoint → List Call → Option Endpoint
  run e [] = some e
  run e (c ∷ calls) = do e' ← perform e c; run e' calls

-- The nodes of the disconnection queue after a call.
abbrev pub queued_after : Nodes → Call → Nodes
queued_after nodes (accepts event incoming new_fds_size events_flags) = nodes
queued_after nodes (waits none max_events) = nodes
queued_after nodes (waits (some pending) max_events) =
    hung (take (event_limit max_events) pending) ++ nodes
queued_after nodes (closes_hungups fuel) = []
queued_after nodes (disconnects fd) = nodes

-- What a call asks of its arguments: descriptors below `2 ^ 64`, no EPOLLHUP on the listener,
-- unused addresses from `malloc`, enough fuel.
abbrev pub Allowed : Endpoint → Nodes → Call → Type 0
Allowed e nodes (accepts event incoming new_fds_size events_flags) =
    (bit_and event.events epollhup ≡ 0) × AllSmall incoming
Allowed e nodes (waits none max_events) = Unit
Allowed e nodes (waits (some pending) max_events) =
    Unused e.heap (take (event_limit max_events) pending)
Allowed e nodes (closes_hungups fuel) = Small nodes × (length nodes < fuel)
Allowed e nodes (disconnects fd) = fd < 2 ^ 64

-- Each call is allowed where it is made.
abbrev pub AllAllowed : Malloc → Endpoint → Nodes → List Call → Type 0
AllAllowed malloc e nodes [] = Unit
AllAllowed malloc e nodes (c ∷ calls) =
    Allowed e nodes c
    × ((e' : Endpoint)
        → perform malloc e c ≡ some e'
        → AllAllowed malloc e' (queued_after nodes c) calls)

-- The clients on record are those that the selector watches, apart from the shutdown descriptor.
abbrev pub Tracks : Endpoint → Type 0
Tracks e = (fd : ℕ) → fd ≢ e.shutdown_fd → watched e.ep_selector fd false e.calls ≡ connected e fd

-- A call that adds `more` to the system calls.
Tracks-step :
    (e e' : Endpoint) (more : List Syscall)
    → SameFds e e'
    → e'.calls ≡ e.calls ++ more
    → ((fd : ℕ) → watched e.ep_selector fd (connected e fd) more ≡ connected e' fd)
    → Tracks e
    → Tracks e'
Tracks-step e e' more (_, _, selector, shutdown) calls one t fd ne =
    rw
      (
        selector,
        calls,
        watched-append e.ep_selector fd false e.calls more,
        t fd (λ x. ne (x ∙ sym shutdown)),
      )
      (one fd)

module _ (malloc : Malloc) (gives : Gives malloc (2 ^ 61)) where
  pub accept-Tracks :
      (e : Endpoint) (nodes : Nodes) (event : EpollEvent) (incoming : List ℕ) (n flags : ℕ)
      → IsOpen e nodes
      → Tracks e
      → bit_and event.events epollhup ≡ 0
      → AllSmall incoming
      → (e' : Endpoint) × (accept malloc e (some event) incoming n flags
          ≡ some (some (take n incoming), e'))
        × IsOpen e' nodes
        × Tracks e'
        × SameFds e e'
  accept-Tracks e nodes event incoming n flags o t alive small =
      let (e', runs, o', calls, one, same) =
        accept-connected malloc gives e nodes event incoming n flags o alive small in
      (
        e',
        runs,
        o',
        Tracks-step e e' (welcomes e.ep_selector flags (take n incoming)) same calls
            (λ fd.
              watched-welcomes e.ep_selector fd (connected e fd) flags (take n incoming)
              ∙ sym (one fd))
            t,
        same,
      )

  pub close_hungups-Tracks :
      (fuel : ℕ) (e : Endpoint) (nodes : Nodes)
      → IsOpen e nodes
      → Tracks e
      → Small nodes
      → length nodes < fuel
      → (e' : Endpoint) × (close_hungups malloc fuel e ≡ some (length nodes, e'))
        × IsOpen e' []
        × Tracks e'
        × SameFds e e'
  close_hungups-Tracks fuel e nodes o t small enough =
      let (e', runs, o', calls, one, same) =
        close_hungups-connected malloc gives fuel e nodes o small enough in
      (
        e',
        runs,
        o',
        Tracks-step e e' (goodbyes e.ep_selector nodes) same calls
            (λ fd. watched-goodbyes e.ep_selector fd (connected e fd) nodes ∙ sym (one fd)) t,
        same,
      )

  perform-Tracks :
      (e : Endpoint) (nodes : Nodes) (c : Call)
      → IsOpen e nodes
      → Tracks e
      → Allowed e nodes c
      → (e' : Endpoint) × (perform malloc e c ≡ some e')
        × IsOpen e' (queued_after nodes c)
        × Tracks e'
        × SameFds e e'
  unfolding perform watched wait_event
  perform-Tracks e nodes (accepts event incoming n flags) o t (alive, small) =
      let (e', runs, o', t', same) = accept-Tracks e nodes event incoming n flags o t alive small in
      (e', rw runs refl, o', t', same)
  perform-Tracks e nodes (waits none n) o t u = (e, refl, o, t, (refl, refl, refl, refl))
  perform-Tracks e nodes (waits (some pending) n) o t u =
      let (e', runs, o', clients, calls, same) = wait_event-hung e nodes pending n o u in
      (
        e',
        rw runs refl,
        o',
        Tracks-step e e' [] same (calls ∙ sym (append-nil e.calls))
            (λ fd. sym (ap (λ b. has b fd) clients)) t,
        same,
      )
  perform-Tracks e nodes (closes_hungups fuel) o t (small, enough) =
      let (e', runs, o', t', same) = close_hungups-Tracks fuel e nodes o t small enough in
      (e', rw runs refl, o', t', same)
  perform-Tracks e nodes (disconnects fd) o t small =
      let (e', runs, o', calls, one, same) =
        disconnect_client-connected malloc gives e nodes fd o small in
      (
        e',
        runs,
        o',
        Tracks-step e e' (hang_up e fd) same calls
            (λ j. watched-hang_up e j fd (connected e j) ∙ sym (one j)) t,
        same,
      )

-- The nodes of the disconnection queue after all calls.
abbrev pub queued_after_all : Nodes → List Call → Nodes
queued_after_all nodes [] = nodes
queued_after_all nodes (c ∷ calls) = queued_after_all (queued_after nodes c) calls

module _ (malloc : Malloc) (gives : Gives malloc (2 ^ 61)) where
  pub run-Tracks :
      (e : Endpoint) (nodes : Nodes) (calls : List Call)
      → IsOpen e nodes
      → Tracks e
      → AllAllowed malloc e nodes calls
      → (e' : Endpoint) × (run malloc e calls ≡ some e')
        × IsOpen e' (queued_after_all nodes calls)
        × Tracks e'
        × SameFds e e'
  unfolding run
  run-Tracks e nodes [] o t a = (e, refl, o, t, (refl, refl, refl, refl))
  run-Tracks e nodes (c ∷ calls) o t (now, later) =
      let (e1, runs, o1, t1, same) = perform-Tracks malloc gives e nodes c o t now in
      let (e2, goes_on, o2, t2, same') =
        run-Tracks e1 (queued_after nodes c) calls o1 t1 (later e1 runs) in
      (e2, rw runs goes_on, o2, t2, SameFds-trans e e1 e2 same same')
