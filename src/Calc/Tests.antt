-- ===== src/Calc/Tests.antt =====
-- The calculator's laws with a concrete C library.
use c10k.Base.{
  ℕ, ◌+◌, ◌-◌, ◌*◌, ◌^◌, ◌<◌, ◌⊎◌, ◌≡◌, refl, true, map, ◌++◌, Option, none, some, List, [], ◌∷◌,
  arith,
}
use mathlib.Core.Option
use c10k.Base.Int.{ℤ, pos, negsuc, ◌+ℤ◌}
use c10k.Calc.{
  Fields, Libc, error, srv_proc, unknown_command, bytes, answer, answer_of, checked, divide,
  compute, calc_request, calc_request_udp, pack_event, unpack_event,
}
use c10k.Calc.Division.{calc_request-divide}
use c10k.Calc.Laws.{
  sent_of, calc_request_udp-calc_request, replies, srv_proc-replies, unpack_event-pack_event,
}

-- One digit in each number, and no spaces between the fields.
abbrev one_digit : List ℕ → Option Fields
one_digit (c ∷ m ∷ o ∷ n ∷ []) =
    some (record { command = c; num_buf_1 = m ∷ []; operator = o; num_buf_2 = n ∷ [] })
one_digit _ = none

abbrev digit : List ℕ → ℤ
digit (d ∷ []) = pos (d - b'0')
digit _ = pos 0

abbrev libc : Libc
libc = record { sscanf = one_digit; atoi = digit }

abbrev seven_by_two : Fields
seven_by_two = record {
  command = b'c';
  num_buf_1 = b'7' ∷ [];
  operator = b'/';
  num_buf_2 = b'2' ∷ [];
}

adds :
    calc_request libc (bytes (b'c' ∷ b'2' ∷ b'+' ∷ b'3' ∷ []))
    ≡ some (answer (pos 2) b'+' (pos 3) (pos 5) ∷ [])
unfolding calc_request answer_of compute checked ◌+ℤ◌
adds = refl

calc_request_udp-calc_request_example :
    calc_request_udp libc (bytes (b'c' ∷ b'2' ∷ b'+' ∷ b'3' ∷ []))
    ≡ Option.map
        (λ actions. (true, sent_of actions))
        (calc_request libc (bytes (b'c' ∷ b'2' ∷ b'+' ∷ b'3' ∷ [])))
calc_request_udp-calc_request_example =
    calc_request_udp-calc_request libc (b'c' ∷ b'2' ∷ b'+' ∷ b'3' ∷ [])

unpack_event-pack_event_example : Option.map unpack_event (pack_event 12 1) ≡ some (12, 1)
unpack_event-pack_event_example = unpack_event-pack_event 12 1 (omega arith) (omega arith)

calc_request-divide_example :
    (((pos 2 ≡ pos 0) ⊎ ((pos 7 ≡ negsuc (2 ^ 31 - 1)) × (pos 2 ≡ negsuc 0)))
      × (calc_request libc (bytes (b'c' ∷ b'7' ∷ b'/' ∷ b'2' ∷ [])) ≡ none))
    ⊎ ((m r : ℕ) × (calc_request libc (bytes (b'c' ∷ b'7' ∷ b'/' ∷ b'2' ∷ []))
          ≡ some (answer (pos 7) b'/' (pos 2) (pos m) ∷ []))
        × (7 ≡ 2 * m + r)
        × (r < 2))
calc_request-divide_example =
    calc_request-divide libc (b'7' ∷ b'/' ∷ b'2' ∷ []) seven_by_two (omega arith) refl refl refl
      refl

divides :
    calc_request libc (bytes (b'c' ∷ b'7' ∷ b'/' ∷ b'2' ∷ []))
    ≡ some (answer (pos 7) b'/' (pos 2) (pos 3) ∷ [])
unfolding calc_request answer_of compute divide checked
divides = refl

divides_by_zero : calc_request libc (bytes (b'c' ∷ b'7' ∷ b'/' ∷ b'0' ∷ [])) ≡ none
unfolding calc_request answer_of compute divide
divides_by_zero = refl

-- Two datagrams, an empty one between them, and one behind the failure.
srv_proc-replies_example :
    srv_proc libc (
      map bytes ((b'c' ∷ b'2' ∷ b'+' ∷ b'3' ∷ []) ∷ [] ∷ (b'x' ∷ []) ∷ [])
      ++ error ∷ bytes (b'c' ∷ []) ∷ [])
    ≡ replies libc ((b'c' ∷ b'2' ∷ b'+' ∷ b'3' ∷ []) ∷ [] ∷ (b'x' ∷ []) ∷ [])
srv_proc-replies_example =
    srv_proc-replies libc ((b'c' ∷ b'2' ∷ b'+' ∷ b'3' ∷ []) ∷ [] ∷ (b'x' ∷ []) ∷ [])
      (bytes (b'c' ∷ []) ∷ [])

replied :
    replies libc ((b'c' ∷ b'2' ∷ b'+' ∷ b'3' ∷ []) ∷ [] ∷ (b'x' ∷ []) ∷ [])
    ≡ some (answer (pos 2) b'+' (pos 3) (pos 5) ∷ unknown_command b'x' ∷ [])
unfolding replies calc_request answer_of compute checked sent_of ◌+ℤ◌
replied = refl
