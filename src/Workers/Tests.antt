-- ===== src/Workers/Tests.antt =====
-- The laws of the pool in states that a pool with one thread reaches.
use c10k.Base.{
  ℕ, zero, suc, ◌^◌, ◌≡◌, ◌≢◌, ◌<◌, ◌⊎◌, refl, true, none, some, List, ◌∷◌, ◌++◌, arith,
}
use c10k.Base.Memory.{Malloc, Gives, store}
use c10k.Queue
use c10k.Queue.{Queue}
use c10k.Queue.Represents.{Represents}
use c10k.Workers.{
  Job, System, waiting, finished, join_test, joining, Move, join_signals, act, Step, move,
  signal_none, join_one, call_post, create, Reach, start, later,
}
use c10k.Workers.Invariant.{flat}
use c10k.Workers.Safety.{mutual_exclusion, taken_in_order, plucks_oldest, join_waits_for_all}
use c10k.Workers.Progress.{awake, Can, jobs_progress}
use c10k.Workers.Hang.{Quietly, join_hangs}

abbrev ample : Malloc
ample _ = true

ample-Gives : (n : ℕ) → Gives ample n
ample-Gives n m h = refl

-- Thread 1 has posted the job (7, 9), and thread 0 is about to pluck it.
abbrev posted : (s : System) × Reach ample 1 s
unfolding create Queue.create Queue.is_empty Queue.push store
posted = (
  _,
  later
      (later
        (later
          (later
            (later
              (later
                (later (later (later start (call_post 1 7 9 refl)) (move 1 (Move.lock_post refl)))
                  (move 1 (Move.push_first refl)))
                (move 1 (Move.push_second refl)))
              (move 1 Move.unlock_post))
            (move 0 (Move.has_job refl)))
          (move 0 (Move.lock refl)))
        (move 0 (Move.job_appears refl)))
      (move 0 (Move.pluck refl)),
)

mutual_exclusion_example : ◌≡◌ {A = ℕ} 0 0
unfolding create posted
mutual_exclusion_example = mutual_exclusion (ample-Gives (2 ^ 33)) (posted.1) 0 0 refl refl

taken_in_order_example :
    (queued : List Job) × (posted.0.pool.posted ≡ posted.0.pool.taken ++ queued)
    × (posted.0.pool.lock ≡ none → Represents posted.0.pool.jobs (flat queued))
unfolding create posted
taken_in_order_example = taken_in_order (ample-Gives (2 ^ 33)) (posted.1)

plucks_oldest_example :
    (fn args : ℕ) × (rest : List Job) × (q q' : Queue) × (posted.0.pool.posted
      ≡ posted.0.pool.taken ++ (fn, args) ∷ rest)
    × (Queue.next posted.0.pool.jobs ≡ some (fn, q))
    × (Queue.next q ≡ some (args, q'))
    × Represents q' (flat rest)
unfolding create posted
plucks_oldest_example = plucks_oldest (ample-Gives (2 ^ 33)) (posted.1) 0 refl

jobs_progress_example :
    (i : ℕ) × (awake (posted.0.pc i) ≡ true) × Can ample i posted.0.pool (posted.0.pc i)
unfolding posted create Queue.create Queue.is_empty Queue.push store
jobs_progress_example =
    jobs_progress (ample-Gives (2 ^ 33)) (omega arith) (posted.1) refl refl (omega arith)

-- Thread 1 joins, and thread 0 ends before it has waited.
abbrev ended : (s : System) × Reach ample 1 s
unfolding create Queue.create Queue.is_empty
ended = (
  _,
  later
      (later
        (later (later (later start (move 1 Move.call_join)) (move 1 (Move.join_first refl)))
          (move 1 Move.set_stop))
        (move 0 (Move.no_job refl)))
      (move 0 (Move.finish refl)),
)

none_waits : (j : ℕ) → ended.0.pc j ≢ waiting
unfolding create ended
none_waits zero e = cc
none_waits (suc zero) e = cc
none_waits (suc (suc j)) e = ground arith

abbrev joined : (s : System) × Reach ample 1 s
unfolding create ended
joined = (
  _,
  later (later (ended.1) (signal_none 1 join_signals none_waits))
      (join_one 1 0 refl (omega arith) refl),
)

abbrev returned : (t : System) × Step ample joined.0 act t
unfolding create ended joined
returned = (_, move 1 (Move.join_end refl))

join_waits_for_all_example :
    ((joined.0.pc 1 ≡ join_test) × (joined.0.pool.stop ≡ true))
    ⊎ ((j : ℕ) → j < 1 → joined.0.pc j ≡ finished)
unfolding create ended joined
join_waits_for_all_example = join_waits_for_all (joined.1) (returned.1) 1 refl refl

join_hangs_example :
    (s : System) × Reach ample 1 s
    × (s.pool.stop ≡ true)
    × (Queue.is_empty s.pool.jobs ≡ true)
    × ((t : System) → Quietly ample s t → (t.pc 0 ≡ waiting) × (t.pc 1 ≡ joining 0))
join_hangs_example = join_hangs ample (ample-Gives 64) 1 (omega arith)
