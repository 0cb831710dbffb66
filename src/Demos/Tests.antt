-- ===== src/Demos/Tests.antt =====
-- A server that two clients reach before it is stopped, and one after.
use c10k.Base.{◌≡◌, refl, true, false, some, List, [], ◌∷◌, ◌++◌, arith}
use c10k.Demos.{
  epoll_create, eventfd, epoll_add, close_fd, Wait, timed_out, interrupted, ready, socket,
  set_nonblock, bind, listen, server_example, test_side_proc,
}
use c10k.Demos.Serving.{accepted, served, server_example-accepted}

abbrev before : List Wait
before = timed_out ∷ ready 4 (20 ∷ 21 ∷ []) ∷ interrupted ∷ []

abbrev during : List Wait
during = ready 4 (22 ∷ []) ∷ []

server_example-accepted_example :
    server_example 3 4 5 before (during ++ ready 5 [] ∷ [])
    ≡ some (
        (epoll_create
          ∷ socket
          ∷ set_nonblock 4
          ∷ bind 4 7999
          ∷ listen 4 512
          ∷ epoll_add 3 4 0xA0000001
          ∷ eventfd 1
          ∷ [])
        ++ served (accepted before)
        ++ (epoll_add 3 5 1 ∷ [])
        ++ served (accepted during)
        ++ close_fd 5 ∷ close_fd 3 ∷ [])
server_example-accepted_example =
    server_example-accepted 3 4 5 before (omega arith, tt) during [] [] (omega arith, tt)

returns_at_event : test_side_proc (true ∷ true ∷ false ∷ []) ≡ true
unfolding test_side_proc
returns_at_event = refl
