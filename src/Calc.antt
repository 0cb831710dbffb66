-- ===== src/Calc.antt =====
-- apps/Run_calc_srv.c and apps/Run_calc_udp_srv.c: servers that compute `c 1 + 2`, over TCP and UDP.
-- `sscanf`, `atoi` and the text of the replies are the C library's and a parameter here; a reply is
-- kept as what is printed. An `int` is an integer, and a result out of its range is undefined.
pub mod Laws
pub mod Division
mod Tests
use c10k.Base.{
  ℕ, ◌+◌, ◌-◌, ◌*◌, ◌/◌, ◌%◌, ◌^◌, ◌≤◌, bit_and, bit_or, Bool, true, false, not, ◌&&◌, Option, none,
  some, List, [], ◌∷◌, ◌++◌, length, ltb, leb, ◌==◌, if◌then◌else◌,
}
use c10k.Base.Memory.{◌>>=◌}
use c10k.Base.Int.{ℤ, pos, negsuc, pos_part, neg_part, sub_ℕ, ◌+ℤ◌, ◌-ℤ◌, ◌*ℤ◌}

-- The four fields that `sscanf(buffer, "%c %s %c %s", …)` stores when it matches all four.
pub record Fields : Type 0 where
  pub command : ℕ
  pub num_buf_1 : List ℕ
  pub operator : ℕ
  pub num_buf_2 : List ℕ

-- The C library: `sscanf` is `none` for fewer than four matches.
pub record Libc : Type 0 where
  pub sscanf : List ℕ → Option Fields
  pub atoi : List ℕ → ℤ

-- What is sent back, or done to the client.
pub data Action : Type 0 where
  too_long : Action
  unknown_command : (c : ℕ) → Action
  bad_format : Action
  answer : (number_1 : ℤ) (operator : ℕ) (number_2 result : ℤ) → Action
  disconnect : Action

-- What `recv` and `recvfrom` return: -1, or the bytes.
pub data Received : Type 0 where
  error : Received
  bytes : List ℕ → Received

abbrev pub is_int : ℤ → Bool
is_int (pos n) = ltb n (2 ^ 31)
is_int (negsuc n) = ltb n (2 ^ 31)

pub checked : ℤ → Option ℤ
checked n = if is_int n then some n else none

-- C division: towards zero, undefined for the divisor 0.
pub divide : ℤ → ℤ → Option ℤ
divide a (pos b) = if b == 0 then none else checked (sub_ℕ (pos_part a / b) (neg_part a / b))
divide a (negsuc b) = checked (sub_ℕ (neg_part a / (b + 1)) (pos_part a / (b + 1)))

-- The `switch`. Any other operator leaves the result 0.
pub compute : (operator : ℕ) → ℤ → ℤ → Option ℤ
compute operator number_1 number_2 =
    if operator == b'+'
    then checked (number_1 +ℤ number_2)
    else if operator == b'-'
    then checked (number_1 -ℤ number_2)
    else if operator == b'*'
    then checked (number_1 *ℤ number_2)
    else if operator == b'/'
    then divide number_1 number_2
    else some (pos 0)

-- The `switch` of Run_calc_udp_srv.c.
pub compute_udp : (operator : ℕ) → ℤ → ℤ → Option ℤ
compute_udp operator number_1 number_2 =
    if operator == b'+'
    then checked (number_1 +ℤ number_2)
    else if operator == b'-'
    then checked (number_1 -ℤ number_2)
    else if operator == b'*'
    then checked (number_1 *ℤ number_2)
    else if operator == b'/'
    then divide number_1 number_2
    else some (pos 0)

module _ (libc : Libc) where
  -- From the two `atoi` on.
  pub answer_of : Fields → Option Action
  answer_of f = do
    let number_1 = libc.atoi f.num_buf_1
    let number_2 = libc.atoi f.num_buf_2
    result ← compute f.operator number_1 number_2
    some (answer number_1 f.operator number_2 result)

  -- `calc_request` of Run_calc_srv.c, for what `recv` returned. `sscanf` reads the bytes received,
  -- which are terminated first.
  pub calc_request : Received → Option (List Action)
  calc_request error = some []
  calc_request (bytes []) = some []
  calc_request (bytes (c ∷ rest)) =
      if leb 127 (length (c ∷ rest))
      then some (too_long ∷ disconnect ∷ [])
      else if not (c == b'c')
      then some (unknown_command c ∷ [])
      else elim (libc.sscanf (c ∷ rest)) [
        | none ↦ some (bad_format ∷ [])
        | some f ↦ do a ← answer_of f; some (a ∷ [])
      ]

  -- The same of Run_calc_udp_srv.c.
  pub answer_of_udp : Fields → Option Action
  answer_of_udp f = do
    let number_1 = libc.atoi f.num_buf_1
    let number_2 = libc.atoi f.num_buf_2
    result ← compute_udp f.operator number_1 number_2
    some (answer number_1 f.operator number_2 result)

  -- `calc_request` of Run_calc_udp_srv.c: the result, 0 as `true` and -1 as `false`, and what is
  -- sent.
  pub calc_request_udp : Received → Option (Bool × List Action)
  calc_request_udp error = some (false, [])
  calc_request_udp (bytes []) = some (true, [])
  calc_request_udp (bytes (c ∷ rest)) =
      if leb 127 (length (c ∷ rest))
      then some (true, too_long ∷ [])
      else if not (c == b'c')
      then some (true, unknown_command c ∷ [])
      else elim (libc.sscanf (c ∷ rest)) [
        | none ↦ some (true, bad_format ∷ [])
        | some f ↦ do a ← answer_of_udp f; some (true, a ∷ [])
      ]

  -- `srv_proc` of Run_calc_udp_srv.c: requests are answered until one call returns -1.
  pub srv_proc : List Received → Option (List Action)
  srv_proc [] = some []
  srv_proc (request ∷ requests) = do
    (goes_on, sent) ← calc_request_udp request
    elim goes_on [ true ↦ do later ← srv_proc requests; some (sent ++ later) | false ↦ some sent ]

-- `(int64_t) client`, for the bit pattern of an `int`.
abbrev pub sign_extend : ℕ → ℕ
sign_extend client = if ltb client (2 ^ 31) then client else client + (2 ^ 64 - 2 ^ 32)

-- The argument that `client_event_processor` packs for a job, from the bit patterns of two `int`. To
-- shift a negative `event_flag` to the left is undefined.
pub pack_event : (client event_flag : ℕ) → Option ℕ
pack_event client event_flag =
    if ltb event_flag (2 ^ 31)
    then some (bit_or (sign_extend client) (event_flag * 2 ^ 32))
    else none

-- The first two lines of `client_event`: the descriptor and the flag.
pub unpack_event : ℕ → ℕ × ℕ
unpack_event args = (args % 2 ^ 32, args / 2 ^ 32)

abbrev pub epollin : ℕ
epollin = 0x1

-- The requests that `client_event` of Run_calc_srv.c serves: the client of an event with EPOLLIN.
pub client_event : ℕ → Option ℕ
client_event args =
    let (client, event_flag) = unpack_event args in
    if bit_and event_flag epollin == 0 then none else some client
