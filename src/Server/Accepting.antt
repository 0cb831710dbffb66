-- ===== src/Server/Accepting.antt =====
-- What `accept_proc` of Run_unix_srv.c keeps, round by round.
use c10k.Base.{
  ℕ, ◌^◌, ◌<◌, ◌≡◌, refl, sym, subst, ◌∙◌, Bool, true, false, not, ◌||◌, Option, none, some, List,
  [], ◌∷◌, length, bit_and, ◌==◌, arith, Bool-cases, Option-cases, ◌⊎◌, inl, inr, if◌then◌else◌,
}
use c10k.Base.Memory.{Malloc, Gives}
use c10k.Stack.Segment.{Nodes}
use c10k.Endpoint.{Endpoint, EpollEvent, epollhup}
use c10k.Endpoint.Open.{IsOpen, SameFds, SameFds-trans}
use c10k.Endpoint.Accepts.{AllSmall, accept-closed, accept-silent}
use c10k.Endpoint.Hungups.{Small}
use c10k.Endpoint.Calls.{Tracks, accept-Tracks, close_hungups-Tracks}
use c10k.Server.{Arrival, accept_flags, accept_proc}

-- Descriptors are below `2 ^ 64`.
abbrev pub Accepted : List Arrival → Type 0
Accepted [] = Unit
Accepted (a ∷ arrivals) = AllSmall a.incoming × Accepted arrivals

-- The event says that the server socket has been closed.
unfoldable pub hung_up : Option EpollEvent → Bool
hung_up none = true
hung_up (some event) = not (bit_and event.events epollhup == 0)

-- The nodes of the disconnection queue after the loop: the first round that goes on serves them.
unfoldable pub waiting : Nodes → List Arrival → Nodes
waiting nodes [] = nodes
waiting nodes (a ∷ arrivals) =
    let rest = waiting [] arrivals in
    elim (hung_up a.event || a.stop) [ true ↦ nodes | false ↦ rest ]

-- `epoll_wait` stored no event: after a timeout or an error.
unfoldable pub silent : Option EpollEvent → Bool
silent none = true
silent (some event) = false

-- Some `epoll_wait` that the loop comes to stores no event.
unfoldable pub times_out : List Arrival → Bool
times_out [] = false
times_out (a ∷ arrivals) =
    let rest = times_out arrivals in
    if silent a.event then true else if hung_up a.event || a.stop then false else rest

waiting-over :
    (nodes : Nodes) (a : Arrival) (arrivals : List Arrival)
    → (hung_up a.event || a.stop) ≡ true
    → waiting nodes (a ∷ arrivals) ≡ nodes
unfolding waiting
waiting-over nodes a arrivals over = rw (waiting, over) refl

waiting-goes_on :
    (nodes : Nodes) (a : Arrival) (arrivals : List Arrival)
    → (hung_up a.event || a.stop) ≡ false
    → waiting nodes (a ∷ arrivals) ≡ waiting [] arrivals
unfolding waiting
waiting-goes_on nodes a arrivals goes_on = rw (waiting, goes_on) refl

module _ (malloc : Malloc) (gives : Gives malloc (2 ^ 61)) (fuel : ℕ) where
  -- Undefined, or back with the record kept.
  abbrev Outcome : Endpoint → Nodes → List Arrival → Type 0
  Outcome e nodes arrivals =
      ((times_out arrivals ≡ true) × (accept_proc malloc fuel e arrivals ≡ none))
      ⊎ ((times_out arrivals ≡ false)
          × (e' : Endpoint) × (accept_proc malloc fuel e arrivals ≡ some e')
          × IsOpen e' (waiting nodes arrivals)
          × Tracks e'
          × SameFds e e')

  -- The server socket has been closed.
  over_hung_up :
      (a : Arrival) (arrivals : List Arrival) (e : Endpoint) (nodes : Nodes) (event : EpollEvent)
      → IsOpen e nodes
      → Tracks e
      → a.event ≡ some event
      → hung_up (some event) ≡ true
      → Outcome e nodes (a ∷ arrivals)
  unfolding accept_proc times_out silent
  over_hung_up a arrivals e nodes event o t stored up =
      let left = waiting-over nodes a arrivals (rw (stored, up) refl) in
      let ends =
        accept-closed malloc e event a.incoming 1 accept_flags (unfold hung_up in ground arith) in
      inr (
        rw (stored, silent, up) refl,
        e,
        rw (stored, ends) refl,
        subst (IsOpen e) (sym left) o,
        t,
        (refl, refl, refl, refl),
      )

  -- One more round.
  round :
      (a : Arrival) (arrivals : List Arrival) (e e2 : Endpoint) (nodes : Nodes)
      → silent a.event ≡ false
      → (hung_up a.event || a.stop) ≡ false
      → accept_proc malloc fuel e (a ∷ arrivals) ≡ accept_proc malloc fuel e2 arrivals
      → SameFds e e2
      → Outcome e2 [] arrivals
      → Outcome e nodes (a ∷ arrivals)
  unfolding times_out
  round a arrivals e e2 nodes heard on step same (inl (late, gone)) =
      inl (rw (heard, on) late, step ∙ gone)
  round a arrivals e e2 nodes heard on step same (inr (prompt, e3, runs, o3, t3, same3)) =
      let left = waiting-goes_on nodes a arrivals on in
      inr (
        rw (heard, on) prompt,
        e3,
        step ∙ runs,
        subst (IsOpen e3) (sym left) o3,
        t3,
        SameFds-trans e e2 e3 same same3,
      )

  -- With memory, on an open endpoint whose clients on record are exactly the descriptors, other than
  -- the shutdown descriptor, that the selector watches, with more fuel than the disconnection
  -- queue has nodes and with descriptors below `2 ^ 64`: if some `epoll_wait` that the loop comes to
  -- stores no event, as after a timeout, then `accept_proc` of Run_unix_srv.c is undefined, since
  -- `endpoint_accept` reads the event all the same. If none does, it is defined, however the loop
  -- is ended: by EPOLLHUP, by `stop` or not yet. Then the endpoint is open again, the clients on
  -- record are still those that the selector watches, the disconnection queue is empty if a round
  -- went on, and the descriptors of the endpoint are the same.
  pub accept_proc-Tracks :
      (arrivals : List Arrival) (e : Endpoint) (nodes : Nodes)
      → IsOpen e nodes
      → Tracks e
      → Small nodes
      → length nodes < fuel
      → Accepted arrivals
      → ((times_out arrivals ≡ true) × (accept_proc malloc fuel e arrivals ≡ none))
        ⊎ ((times_out arrivals ≡ false)
            × (e' : Endpoint) × (accept_proc malloc fuel e arrivals ≡ some e')
            × IsOpen e' (waiting nodes arrivals)
            × Tracks e'
            × SameFds e e')
  unfolding accept_proc waiting times_out silent
  accept_proc-Tracks [] e nodes o t small enough low =
      inr (refl, e, refl, o, t, (refl, refl, refl, refl))
  accept_proc-Tracks (a ∷ arrivals) e nodes o t small enough (low, lows) =
      elim (Option-cases a.event) [
        | inl none_stored ↦ inl (
          rw (none_stored, silent) refl,
          rw (none_stored, accept-silent malloc e a.incoming 1 accept_flags) refl,
        )
        | inr (event, stored) ↦ elim (Bool-cases (hung_up (some event))) [
          | inl up ↦ over_hung_up a arrivals e nodes event o t stored up
          | inr alive ↦
              let (e1, accepts, o1, t1, same1) =
                accept-Tracks malloc gives e nodes event a.incoming 1 accept_flags o t
                  (unfold hung_up in ground arith) low in
              elim (Bool-cases a.stop) [
                | inl stops ↦
                    let left = waiting-over nodes a arrivals (rw (stored, alive) stops) in
                    inr (
                      rw (stored, silent, alive, stops) refl,
                      e1,
                      rw (stored, accepts, stops) refl,
                      subst (IsOpen e1) (sym left) o1,
                      t1,
                      same1,
                    )
                | inr goes_on ↦
                    let (e2, closes, o2, t2, same2) =
                      close_hungups-Tracks malloc gives fuel e1 nodes o1 t1 small enough in
                    round a arrivals e e2 nodes (rw stored refl) (rw (stored, alive) goes_on)
                      (rw (stored, accepts, goes_on, closes) refl)
                      (SameFds-trans e e1 e2 same1 same2)
                      (accept_proc-Tracks arrivals e2 [] o2 t2 tt (omega arith) lows)
              ]
        ]
      ]
