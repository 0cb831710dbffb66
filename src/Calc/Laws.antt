-- ===== src/Calc/Laws.antt =====
-- What the two calculators answer, and how a job carries its event.
use mathlib.Core.Option
use c10k.Base.{
  ℕ, ◌-◌, zero, suc, ◌+◌, ◌*◌, ◌/◌, ◌^◌, ◌<◌, bit_or, ◌≡◌, refl, ap, ap₂, true, Option, none, some,
  List, [], ◌∷◌, ◌++◌, map, length, ltb, leb, ◌==◌, if◌then◌else◌, Bool-cases, Option-cases, inl,
  inr, arith,
}
use Prim.Native.Nat.{bit_or-bitwise}
use native.Mathlib.Nat.{pow-suc}
use c10k.Base.Memory.{◌>>=◌}
use c10k.Base.Bits.{or_lowest}
use c10k.Calc.{
  Libc, Action, Received, error, srv_proc, disconnect, bytes, compute, answer_of, calc_request,
  calc_request_udp, compute_udp, answer_of_udp, pack_event, unpack_event,
}

-- What a client sees, without what the TCP server does to the connection.
unfoldable pub sent_of : List Action → List Action
sent_of [] = []
sent_of (disconnect ∷ actions) = sent_of actions
sent_of (a ∷ actions) = a ∷ sent_of actions

-- To the same bytes, `calc_request` of the UDP server returns 0 and sends what that of the TCP
-- server sends, and one of them has undefined behaviour exactly if the other has.
pub calc_request_udp-calc_request :
    (libc : Libc) (buffer : List ℕ)
    → calc_request_udp libc (bytes buffer)
      ≡ Option.map (λ actions. (true, sent_of actions)) (calc_request libc (bytes buffer))
unfolding calc_request_udp calc_request sent_of answer_of answer_of_udp compute compute_udp
calc_request_udp-calc_request libc [] = refl
calc_request_udp-calc_request libc (c ∷ rest) = elim (Bool-cases (leb 127 (suc (length rest)))) [
  | inl long ↦ rw long
  | inr short ↦ elim (Bool-cases (c == b'c')) [
    | inr unknown ↦ rw (short, unknown)
    | inl known ↦ elim (Option-cases (libc.sscanf (c ∷ rest))) [
      | inl bad ↦ rw (short, known, bad)
      | inr (f, good) ↦
          elim (Option-cases (compute f.operator (libc.atoi f.num_buf_1) (libc.atoi f.num_buf_2))) [
            | inl fault ↦ rw (short, known, good, fault)
            | inr (r, ok) ↦ rw (short, known, good, ok)
          ]
    ]
  ]
]

-- What the TCP server would send for these requests, one after the other.
unfoldable pub replies : Libc → List (List ℕ) → Option (List Action)
replies libc [] = some []
replies libc (buffer ∷ buffers) = do
  actions ← calc_request libc (bytes buffer)
  later ← replies libc buffers
  some (sent_of actions ++ later)

-- `srv_proc` of the UDP server sends, for each datagram that comes before the first failure of
-- recvfrom, empty ones included, what the TCP server sends for the same bytes, in order; at that
-- failure it ends, whatever would come after it; and it is undefined exactly if the TCP server is
-- on one of these datagrams.
pub srv_proc-replies :
    (libc : Libc) (buffers : List (List ℕ)) (rest : List Received)
    → srv_proc libc (map bytes buffers ++ error ∷ rest) ≡ replies libc buffers
unfolding srv_proc replies calc_request_udp
srv_proc-replies libc [] rest = refl
srv_proc-replies libc (buffer ∷ buffers) rest =
    elim (Option-cases (calc_request libc (bytes buffer))) [
      | inl fault ↦ rw (answered buffer, ◌>>=◌, fault)
      | inr (actions, ok) ↦ rw (answered buffer, ◌>>=◌, ok, srv_proc-replies libc buffers rest) refl
    ]
  where
    answered :
        (b : List ℕ)
        → calc_request_udp libc (bytes b)
          ≡ Option.map (λ actions. (true, sent_of actions)) (calc_request libc (bytes b))
    answered b = calc_request_udp-calc_request libc b

bit_or_zero : (n : ℕ) → bit_or 0 n ≡ n
bit_or_zero n = omega (arith, bit_or-bitwise 0 n)

-- Disjoint bits: `|` is a sum.
bit_or-add : (k a b : ℕ) → a < 2 ^ k → bit_or a (b * 2 ^ k) ≡ a + b * 2 ^ k
bit_or-add zero a b h =
    let none_below : a ≡ 0 = omega arith in rw (none_below) (omega (arith, bit_or_zero (b * 1)))
bit_or-add (suc k) a b h = ground (
  arith,
  or_lowest a (b * 2 ^ suc k),
  pow-suc 2 k,
  ap (λ (t : ℕ). b * t) (pow-suc 2 k),
  bit_or-add k (a / 2) b (omega (arith, pow-suc 2 k)),
)

-- For a descriptor that is not negative and any bit pattern of flags: if the sign bit of the flags is
-- not set, then a job brings back the descriptor and the flags of the event that it was posted
-- for; if it is set, the shift is undefined.
pub unpack_event-pack_event :
    (client event_flag : ℕ)
    → client < 2 ^ 31
    → event_flag < 2 ^ 32
    → Option.map unpack_event (pack_event client event_flag)
      ≡ (if ltb event_flag (2 ^ 31) then some (client, event_flag) else none)
unfolding unpack_event pack_event
unpack_event-pack_event client event_flag h k = elim (Bool-cases (ltb event_flag (2 ^ 31))) [
  | inl fits ↦
      let positive : ltb client (2 ^ 31) ≡ true = ground arith in
      rw (fits, positive, bit_or-add 32 client event_flag (omega arith))
        (pair (omega arith) (omega arith))
  | inr negative ↦ rw negative
]
  where
    pair : {a b c d : ℕ} → a ≡ c → b ≡ d → ◌≡◌ {A = Option (ℕ × ℕ)} (some (a, b)) (some (c, d))
    pair p q = ap₂ (λ x y. some (x, y)) p q

-- The shift of -1.
pub pack_event-negative : (client : ℕ) → pack_event client (2 ^ 32 - 1) ≡ none
unfolding pack_event
pack_event-negative client = refl
