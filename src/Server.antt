-- ===== src/Server.antt =====
-- apps/Run_unix_srv.c and apps/Run_calc_srv.c: the loops of the two threads that `main` starts, over
-- an endpoint. What the system answers to one call is an entry of a list; the end of the list is a
-- call that has not returned. `stop` is what the loop reads after the call. Printing is left out.
mod Accepting
mod Loops
mod Tests
use c10k.Base.{ℕ, ◌-◌, ◌^◌, bit_or, Bool, true, false, Option, none, some, List, [], ◌∷◌, ◌++◌}
use c10k.Base.Memory.{◌>>=◌, Malloc}
use c10k.Stack.{Ptr}
use c10k.Endpoint.{Endpoint, EpollEvent, epollin, epollhup, accept, close_hungups, wait_event}
use c10k.Calc.{pack_event}

-- What one `endpoint_accept` meets.
pub record Arrival : Type 0 where
  pub event : Option EpollEvent
  pub incoming : List ℕ
  pub stop : Bool

abbrev pub epollet : ℕ
epollet = 0x80000000

-- The constant `flags` of `accept_proc`.
abbrev pub accept_flags : ℕ
accept_flags = bit_or (bit_or epollhup epollin) epollet

-- `count > -1 && !stop` is false.
abbrev pub ends : {A : Type 0} → Option A → Bool → Bool
ends none stop = true
ends (some _) stop = stop

module _ (malloc : Malloc) (fuel : ℕ) where
  -- `accept_proc` of Run_unix_srv.c. `fuel` is for `endpoint_close_hungups`.
  pub accept_proc : Endpoint → List Arrival → Option Endpoint
  accept_proc e [] = some e
  accept_proc e (a ∷ arrivals) = do
    (count, e1) ← accept malloc e a.event a.incoming 1 accept_flags
    elim (ends count a.stop) [
      | true ↦ some e1
      | false ↦ do (_, e2) ← close_hungups malloc fuel e1; accept_proc e2 arrivals
    ]

  -- The loop of `accept_proc` of Run_calc_srv.c.
  pub accept_only : Endpoint → List Arrival → Option Endpoint
  accept_only e [] = some e
  accept_only e (a ∷ arrivals) = do
    (count, e1) ← accept malloc e a.event a.incoming 1 accept_flags
    elim (ends count a.stop) [ true ↦ some e1 | false ↦ accept_only e1 arrivals ]

  -- `accept_proc` of Run_calc_srv.c, which closes hung up clients before the loop only.
  pub calc_accept_proc : Endpoint → List Arrival → Option Endpoint
  calc_accept_proc e arrivals = do (_, e1) ← close_hungups malloc fuel e; accept_only e1 arrivals

-- What one `endpoint_wait_event` meets: a failure of `epoll_wait`, or the pending events, each with
-- the address that `malloc` would return for its node; none of them is a timeout.
pub record Wake : Type 0 where
  pub pending : Option (List (EpollEvent × Ptr))
  pub stop : Bool

-- `client` and `event_flag` after the call, which were `held` before it.
pub latest : Option (List (ℕ × ℕ)) → (held : ℕ × ℕ) → ℕ × ℕ
latest none held = held
latest (some []) held = held
latest (some (event ∷ _)) held = event

-- `if (count > 0) w_post(w, client_event, arg)`: the arguments posted.
pub posts : Option (List (ℕ × ℕ)) → (arg : ℕ) → List ℕ
posts none arg = []
posts (some []) arg = []
posts (some (_ ∷ _)) arg = arg ∷ []

-- The loop of `client_event_processor` and the call before it, with `client` and `event_flag`. The
-- argument is computed in each round, also if no event came.
pub event_loop : (client event_flag : ℕ) → Endpoint → List Wake → Option (List ℕ × Endpoint)
event_loop client event_flag e [] = some ([], e)
event_loop client event_flag e (w ∷ wakes) = do
  (stored, e1) ← wait_event e w.pending 1
  let held = latest stored (client, event_flag)
  elim (ends stored w.stop) [
    | true ↦ some ([], e1)
    | false ↦ do
      arg ← pack_event held.0 held.1
      (jobs, e2) ← event_loop held.0 held.1 e1 wakes
      some (posts stored arg ++ jobs, e2)
  ]

-- The bit pattern of the `int` -1.
abbrev pub minus_one : ℕ
minus_one = 2 ^ 32 - 1

-- `client_event_processor`, the same in both programs: the arguments of the calls of `w_post`, in
-- order, and the endpoint at the end.
pub client_event_processor : Endpoint → List Wake → Option (List ℕ × Endpoint)
client_event_processor e wakes = event_loop minus_one minus_one e wakes
