-- ===== src/Endpoint/Watched.antt =====
-- Which descriptors the selector watches, read off the system calls.
use c10k.Base.{
  ℕ, zero, suc, ◌+◌, ◌≤◌, ◌<◌, ◌≡◌, refl, ap, sym, ◌∙◌, Bool, true, false, ◌&&◌, List, [], ◌∷◌,
  ◌++◌, arith, ◌==◌, if◌then◌else◌, Bool-cases, inl, inr,
}
use c10k.Stack.Segment.{Nodes}
use c10k.Endpoint.{
  Endpoint, Syscall, socket, set_nonblock, bind, listen, epoll_create, eventfd, epoll_add,
  epoll_del, shutdown, close_fd, hang_up,
}
use c10k.Endpoint.Open.{connected}
use c10k.Endpoint.Drain.{farewells}
use c10k.Endpoint.Accepts.{welcomes, is_in, in-cons}
use c10k.Endpoint.Hungups.{goodbyes, is_queued, queued-cons}

-- Whether the epoll instance watches `fd` after the calls, if `was` says so before them.
unfoldable pub watched : (epoll fd : ℕ) (was : Bool) → List Syscall → Bool
watched epoll fd was [] = was
watched epoll fd was (epoll_add ep f events ∷ calls) =
    watched epoll fd (if (ep == epoll) && (fd == f) then true else was) calls
watched epoll fd was (epoll_del ep f ∷ calls) =
    watched epoll fd (if (ep == epoll) && (fd == f) then false else was) calls
watched epoll fd was (socket ipv6 ∷ calls) = watched epoll fd was calls
watched epoll fd was (set_nonblock f ∷ calls) = watched epoll fd was calls
watched epoll fd was (bind f ipv6 port ∷ calls) = watched epoll fd was calls
watched epoll fd was (listen f backlog ∷ calls) = watched epoll fd was calls
watched epoll fd was (epoll_create ∷ calls) = watched epoll fd was calls
watched epoll fd was (eventfd ∷ calls) = watched epoll fd was calls
watched epoll fd was (shutdown f ∷ calls) = watched epoll fd was calls
watched epoll fd was (close_fd f ∷ calls) = watched epoll fd was calls

module _ (epoll fd : ℕ) where
  pub watched-append :
      (was : Bool) (xs ys : List Syscall)
      → watched epoll fd was (xs ++ ys) ≡ watched epoll fd (watched epoll fd was xs) ys
  unfolding watched
  watched-append was [] ys = refl
  watched-append was (epoll_add ep f events ∷ xs) ys =
      watched-append (if (ep == epoll) && (fd == f) then true else was) xs ys
  watched-append was (epoll_del ep f ∷ xs) ys =
      watched-append (if (ep == epoll) && (fd == f) then false else was) xs ys
  watched-append was (socket ipv6 ∷ xs) ys = watched-append was xs ys
  watched-append was (set_nonblock f ∷ xs) ys = watched-append was xs ys
  watched-append was (bind f ipv6 port ∷ xs) ys = watched-append was xs ys
  watched-append was (listen f backlog ∷ xs) ys = watched-append was xs ys
  watched-append was (epoll_create ∷ xs) ys = watched-append was xs ys
  watched-append was (eventfd ∷ xs) ys = watched-append was xs ys
  watched-append was (shutdown f ∷ xs) ys = watched-append was xs ys
  watched-append was (close_fd f ∷ xs) ys = watched-append was xs ys

  itself : (epoll == epoll) ≡ true
  itself = ground arith

  pub watched-welcomes :
      (was : Bool) (flags : ℕ) (fds : List ℕ)
      → watched epoll fd was (welcomes epoll flags fds) ≡ (if is_in fd fds then true else was)
  unfolding watched welcomes
  watched-welcomes was flags [] = refl
  watched-welcomes was flags (f ∷ fds) =
      ap (λ b. watched epoll fd (if b && (fd == f) then true else was) (welcomes epoll flags fds))
        itself
      ∙ watched-welcomes (if fd == f then true else was) flags fds
      ∙ in-cons fd f (is_in fd fds) was

  pub watched-goodbyes :
      (was : Bool) (nodes : Nodes)
      → watched epoll fd was (goodbyes epoll nodes) ≡ (if is_queued fd nodes then false else was)
  unfolding watched goodbyes
  watched-goodbyes was [] = refl
  watched-goodbyes was ((a, f) ∷ nodes) =
      ap (λ b. watched epoll fd (if b && (fd == f) then false else was) (goodbyes epoll nodes))
        itself
      ∙ watched-goodbyes (if fd == f then false else was) nodes
      ∙ queued-cons fd f (is_queued fd nodes) was

pub watched-hang_up :
    (e : Endpoint) (fd f : ℕ) (was : Bool)
    → watched e.ep_selector fd was (hang_up e f) ≡ (if fd == f then false else was)
unfolding watched
watched-hang_up e fd f was = rw (itself e.ep_selector fd)

-- One round of the pass over all clients.
farewells_round :
    (e : Endpoint) (fd count index : ℕ) (was : Bool)
    → watched e.ep_selector fd was (farewells e (suc count) index)
      ≡ watched e.ep_selector fd
          (if connected e index then (if fd == index then false else was) else was)
          (farewells e count (index + 1))
unfolding farewells
farewells_round e fd count index was = elim (Bool-cases (connected e index)) [
  | inl on ↦
      rw
        (
          on,
          watched-append e.ep_selector fd was (hang_up e index) (farewells e count (index + 1)),
          watched-hang_up e fd index was,
        )
        refl
  | inr off ↦ rw off refl
]

-- The pass puts no descriptor into the selector.
pub watched-farewells_out :
    (e : Endpoint) (fd count index : ℕ)
    → watched e.ep_selector fd false (farewells e count index) ≡ false
unfolding farewells watched
watched-farewells_out e fd zero index = refl
watched-farewells_out e fd (suc count) index =
    farewells_round e fd count index false
    ∙ ap (λ b. watched e.ep_selector fd b (farewells e count (index + 1))) same
    ∙ watched-farewells_out e fd count (index + 1)
  where
    same : (if connected e index then (if fd == index then false else false) else false) ≡ false
    same = ground arith

-- The pass takes each client on record out of the selector.
pub watched-farewells :
    (e : Endpoint) (fd count index : ℕ) (was : Bool)
    → connected e fd ≡ true
    → index ≤ fd
    → fd < index + count
    → watched e.ep_selector fd was (farewells e count index) ≡ false
watched-farewells e fd zero index was on low high = absurd (omega arith)
watched-farewells e fd (suc count) index was on low high = elim (Bool-cases (fd == index)) [
  | inl at ↦
      let same : fd ≡ index = ground arith in
      let here : connected e index ≡ true = ap (λ n. connected e n) (sym same) ∙ on in
      farewells_round e fd count index was
      ∙ rw (here, at) (watched-farewells_out e fd count (index + 1))
  | inr other ↦
      let later =
        λ (b : Bool). watched-farewells e fd count (index + 1) b on (ground arith) (omega arith) in
      farewells_round e fd count index was ∙ later _
]
