-- ===== src/Endpoint/Accepts.antt =====
-- `endpoint_accept`: the new clients go on record and into the selector.
use c10k.Base.{
  ℕ, zero, suc, ◌^◌, ◌<◌, ◌≡◌, ◌≢◌, refl, ap, ◌∙◌, Bool, true, false, ◌||◌, Option, none, some,
  List, [], ◌∷◌, ◌++◌, take, arith, Bool-cases, inl, inr, bit_and, bit_or, ◌==◌, if◌then◌else◌,
}
use mathlib.Core.List.{append-nil, append_assoc}
use c10k.Base.Memory.{Malloc, Gives}
use c10k.Boolset.{Boolset}
use c10k.Boolset.Valid.{IsValid, has}
use c10k.Stack.Segment.{Nodes}
use c10k.Endpoint.{
  Endpoint, EpollEvent, Syscall, epoll_add, epollhup, epollrdhup, create_epoll_event, ask,
  register_client, accept_loop, accept,
}
use c10k.Endpoint.Open.{IsOpen, connected, SameFds}
use c10k.Endpoint.Clients.{mark_client-has}

-- The calls that put the new clients into the selector, each for the flags and for EPOLLRDHUP.
unfoldable pub welcomes : (ep_selector events_flags : ℕ) → List ℕ → List Syscall
welcomes ep_selector events_flags [] = []
welcomes ep_selector events_flags (fd ∷ fds) =
    epoll_add ep_selector fd (bit_or events_flags epollrdhup)
    ∷ welcomes ep_selector events_flags fds

abbrev pub is_in : ℕ → List ℕ → Bool
is_in fd [] = false
is_in fd (x ∷ fds) = (fd == x) || is_in fd fds

abbrev pub AllSmall : List ℕ → Type 0
AllSmall [] = Unit
AllSmall (fd ∷ fds) = (fd < 2 ^ 64) × AllSmall fds

pub in-cons :
    (j fd : ℕ) (later was : Bool)
    → (if later then true else (if j == fd then true else was))
      ≡ (if (j == fd) || later then true else was)
in-cons j fd true was = elim (Bool-cases (j == fd)) [ inl e ↦ rw e | inr e ↦ rw e ]
in-cons j fd false was = elim (Bool-cases (j == fd)) [ inl e ↦ rw e | inr e ↦ rw e ]

-- What the loop leaves.
record Accepted (e : Endpoint) (fds : List ℕ) (events_flags : ℕ) (out : Option (List ℕ × Endpoint))
    : Type 0 where
  clients : Boolset
  returns :
      out
      ≡ some (
        fds,
        record e {
          connected_clients_fds = clients;
          calls = e.calls ++ welcomes e.ep_selector events_flags fds;
        },
      )
  valid : IsValid clients
  records : (j : ℕ) → has clients j ≡ (if is_in j fds then true else connected e j)

nobody :
    (e : Endpoint) (events_flags : ℕ) {out : Option (List ℕ × Endpoint)}
    → IsValid e.connected_clients_fds
    → out ≡ some ([], e)
    → Accepted e [] events_flags out
unfolding welcomes
nobody e events_flags v done = record {
  clients = e.connected_clients_fds;
  returns = rw append-nil done;
  valid = v;
  records = λ j. refl;
}

-- On EPOLLHUP, nothing is accepted and the result is -1.
pub accept-closed :
    (malloc : Malloc) (e : Endpoint) (event : EpollEvent) (incoming : List ℕ) (n flags : ℕ)
    → (bit_and event.events epollhup == 0) ≡ false
    → accept malloc e (some event) incoming n flags ≡ some (none, e)
unfolding accept
accept-closed malloc e event incoming n flags up = rw up refl

-- With no event stored, `ep_event` is read unwritten.
pub accept-silent :
    (malloc : Malloc) (e : Endpoint) (incoming : List ℕ) (n flags : ℕ)
    → accept malloc e none incoming n flags ≡ none
unfolding accept
accept-silent malloc e incoming n flags = refl

module _ (malloc : Malloc) (gives : Gives malloc (2 ^ 61)) where
  accept_loop-Accepted :
      (incoming : List ℕ) (room events_flags : ℕ) (e : Endpoint)
      → IsValid e.connected_clients_fds
      → e.connected_clients_lock ≡ false
      → AllSmall incoming
      → Accepted e
          (take room incoming)
          events_flags
          (accept_loop malloc e incoming room events_flags)
  unfolding accept_loop welcomes register_client ask create_epoll_event
  accept_loop-Accepted incoming zero events_flags e v free small = nobody e events_flags v refl
  accept_loop-Accepted [] (suc room) events_flags e v free small = nobody e events_flags v refl
  accept_loop-Accepted (fd ∷ incoming) (suc room) events_flags e v free (low, small) =
      let (clients, runs, v', one) = mark_client-has malloc gives e fd 1 v free low in
      let e1 = record e {
        connected_clients_fds = clients;
        calls = e.calls ++ epoll_add e.ep_selector fd (bit_or events_flags epollrdhup) ∷ [];
      } in
      let later = accept_loop-Accepted incoming room events_flags e1 v' free small in
      record {
        clients = later.clients;
        returns =
            rw (runs, later.returns)
              (ap
                (λ calls. some (
                  fd ∷ take room incoming,
                  record e { connected_clients_fds = later.clients; calls = calls },
                ))
                (append_assoc (e.calls)
                  (epoll_add e.ep_selector fd (bit_or events_flags epollrdhup) ∷ [])
                  (welcomes e.ep_selector events_flags (take room incoming))));
        valid = later.valid;
        records = λ j.
            later.records j
            ∙ ap (λ b. if is_in j (take room incoming) then true else b) (one j)
            ∙ in-cons j fd (is_in j (take room incoming)) (connected e j);
      }

  -- On an open endpoint with memory, when epoll_wait stored an event without EPOLLHUP and `accept`
  -- returns descriptors below `2 ^ 64`, `endpoint_accept` returns the first of them, as many as
  -- there is room for; it puts exactly these on record and into the selector, for the flags that
  -- were asked for and EPOLLRDHUP, in order, and leaves the disconnection queue and the endpoint's own
  -- descriptors as they were.
  pub accept-connected :
      (e : Endpoint) (nodes : Nodes) (event : EpollEvent) (incoming : List ℕ)
      (new_fds_size events_flags : ℕ)
      → IsOpen e nodes
      → bit_and event.events epollhup ≡ 0
      → AllSmall incoming
      → (e' : Endpoint) × (accept malloc e (some event) incoming new_fds_size events_flags
          ≡ some (some (take new_fds_size incoming), e'))
        × IsOpen e' nodes
        × (e'.calls ≡ e.calls ++ welcomes e.ep_selector events_flags (take new_fds_size incoming))
        × ((j : ℕ)
            → connected e' j
              ≡ (if is_in j (take new_fds_size incoming) then true else connected e j))
        × SameFds e e'
  unfolding accept
  accept-connected e nodes event incoming new_fds_size events_flags o alive small =
      let s =
        accept_loop-Accepted incoming new_fds_size events_flags e o.clients o.clients_free small in
      (
        record e {
          connected_clients_fds = s.clients;
          calls = e.calls ++ welcomes e.ep_selector events_flags (take new_fds_size incoming);
        },
        rw (alive, s.returns) refl,
        record {
          clients = s.valid;
          clients_free = o.clients_free;
          queue_free = o.queue_free;
          queue = o.queue;
        },
        refl,
        s.records,
        (refl, refl, refl, refl),
      )

  -- After EPOLLHUP on the listener `endpoint_accept` returns -1 and changes nothing.
  pub accept-hup :
      (e : Endpoint) (event : EpollEvent) (incoming : List ℕ) (new_fds_size events_flags : ℕ)
      → bit_and event.events epollhup ≢ 0
      → accept malloc e (some event) incoming new_fds_size events_flags ≡ some (none, e)
  unfolding accept
  accept-hup e event incoming new_fds_size events_flags hup =
      let test : (bit_and event.events epollhup == 0) ≡ false = ground arith in rw test
