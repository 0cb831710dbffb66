-- ===== src/Lib.antt =====
-- C10K: the C library under src/unix and include/unix, a server kit for many sockets.
--
-- The library has a growable ring of pointers (queue), a set of indices as bits (boolset), a
-- linked stack (stack), a thread pool over the queue (workers), TCP endpoints that keep their
-- clients in a boolset and their disconnection queue in a stack (endpoint), and a parser of HTTP
-- headers (http). The programs under apps/ are small servers on top of it. Beside it stands a thread
-- pool in C++ (Threadpool) that nothing else uses.
--
-- Which file models which part:
--   Base            numbers, lists, bits of a number, C memory; Base/Memory says what undefined
--                   behaviour is: the result `none`
--   Queue           src/unix/queue.c: `create`, `resize`, `push`, `is_empty`, `next`, `destroy`
--                   are q_create, q_resize, q_push, q_is_empty, q_next, q_destroy; `msb` is MSB
--   Boolset         src/unix/boolset.c: `create`, `expand`, `set`, `get`, `foreach`, `destroy`
--                   are the functions with the prefix boolset_
--   Stack           src/unix/stack.c: the functions with the prefix stack_, over an explicit heap
--   Http            src/unix/http.c: `str_to_header`, `header_to_str`, `str_to_headers` and
--                   `header_set` are the functions with the prefix http_; `find`, `skip_spaces`
--                   and `trim_spaces` are the loops of http_str_to_header. Http/Bounds is about a
--                   line without a colon, Http/Strings and
--                   Http/Print are about strings in blocks and what `header_to_str` writes,
--                   Http/Headers about several lines
--   Workers         src/unix/workers.c: `Move`, `Signals` and `Step` are the steps of w_process,
--                   w_post and w_join, `create` is w_create; `Pc` is where a thread stands
--   Endpoint        src/unix/endpoint.c: the functions with the prefix endpoint_, over the boolset
--                   of clients and the stack of clients to disconnect.
--                   Endpoint/Open says what an endpoint between two calls is, Endpoint/Drain is about
--                   the pass over all clients.
--                   Endpoint/Calls puts calls in sequence, Endpoint/Watched reads off the system calls
--                   what epoll watches, Endpoint/Lifetime goes from endpoint_create to
--                   endpoint_close
--   Calc            apps/Run_calc_srv.c and apps/Run_calc_udp_srv.c: `calc_request` and
--                   `calc_request_udp` answer one request, `compute` and `compute_udp` are the
--                   `switch` of each, `pack_event` and `unpack_event` carry an event in the argument
--                   of a job. Calc/Division is about the operator `/`, Calc/Laws about the rest
--   Server          apps/Run_unix_srv.c and apps/Run_calc_srv.c: `accept_proc`, `calc_accept_proc`
--                   and `client_event_processor`, the loops of the two threads that main starts;
--                   `event_loop` is the loop of the last, with `client` and `event_flag`.
--                   Server/Accepting is about the accepting, Server/Loops about the events
--   Page            apps/Run_unix_srv.c: `html_answer` and `client_event`; `list_items` is its loop
--                   over the headers, `send_page` puts the response together. Page/Scan is about
--                   the two scans, Page/Items about the list, Page/Response about the buffers
--   Threadpool      src/Nettverksprog/Threadpool.cpp: `Move`, `Notifies` and `Step` are the steps of
--                   process, post and join, `create` is the constructor; the destructor calls join
--   Demos           apps/Server_example.c and apps/Epoll_test.c: `side_proc` and `server_example`,
--                   `test_side_proc` and `epoll_test` are side_proc and main of each
--
-- State is passed explicitly: a function that changes `*q` returns the new value. Machine numbers
-- are natural numbers; where a C operation wraps, `% 2 ^ 64` is written out, and where it would be
-- undefined (a shift of a negative number or out of range, a division by zero, an access out of
-- range, the read of a variable that was never written) the result is `none`. A thread of the C++
-- pool that calls `front` or `pop` on an empty queue is `undefined`, a place that it does not leave.
--
-- What is not under the repository is a parameter. `malloc` is a function that says which sizes
-- succeed (queue, boolset), or returns the address that is given (stack, endpoint); theorems that
-- need memory say so by `Gives malloc n`. The operating system's answers (descriptors, events,
-- accepted sockets, received bytes, the failure of `epoll_wait`) are arguments, and what it is
-- asked is the list `calls` of an endpoint. A mutex is a flag: to lock a locked one is `none`.
-- `sscanf` and `atoi` are the fields of `Libc`.
--
-- Fuel: `foreach_word` of Boolset takes one more round than the set has words, and
-- `foreach-eq-scan` shows that this is enough for callbacks that keep the size of the set.
-- `empty_loop` of Stack takes more fuel than the stack has nodes, which is enough by
-- `empty-Holds`.
-- `skip_spaces` of Http takes one round more than the block has bytes, since the read behind the
-- last byte faults; `headers_loop` takes `str_len + 1` rounds, since each moves two bytes at least.
-- `line_end` of Page takes one round more than the buffer has bytes, and `headers_end` one more than
-- bytes were received, since each round moves two bytes at least.
-- `hungups_loop` of Endpoint takes more fuel than the disconnection queue has nodes, which is
-- enough by `close_hungups-connected`.
--
-- Threads: each pool is a step relation, in which each access to what is shared is one step, the
-- accesses are sequentially consistent, and a call of the queue is one access. Its theorems hold of
-- every interleaving.
--
-- Not modelled: weak memory, `main` of the servers, what the programs log, and src/unix/endpoint2.c,
-- which is commented out of the build and does not compile. The functions of an endpoint run one at
-- a time here. The string functions of the C library, `%zd` among them, are written out as far as
-- html_answer and http.c use them.
pub mod Base
pub mod Queue
pub mod Boolset
pub mod Stack
pub mod Http
pub mod Workers
pub mod Endpoint
pub mod Calc
pub mod Server
pub mod Page
pub mod Threadpool
pub mod Demos
