-- ===== src/Threadpool/Tests.antt =====
-- A pool with one thread, to which thread 1 posts the job 7.
use c10k.Base.{ℕ, zero, suc, ◌≡◌, ◌≢◌, refl, true, List, ◌∷◌, ◌++◌, arith}
use c10k.Threadpool.{
  System, waiting, popping, undefined, Move, post_notifies, Step, move, notify_none, create, Reach,
  start, later,
}
use c10k.Threadpool.Invariant.{holds}
use c10k.Threadpool.Fifo.{FifoStep, view, Step-FifoStep, one_at_a_time}

abbrev posting : (s : System) × Reach 1 s
unfolding create
posting = (
  _,
  later (later (later start (move 1 (Move.call_post {f = 7}))) (move 1 (Move.lock_post refl)))
      (move 1 Move.push),
)

none_waits : (j : ℕ) → posting.0.pc j ≢ waiting
unfolding create posting
none_waits zero e = cc
none_waits (suc zero) e = cc
none_waits (suc (suc j)) e = ground arith

-- Thread 0 has read the front of the queue.
abbrev fronted : (s : System) × Reach 1 s
unfolding create posting
fronted = (
  _,
  later
      (later
        (later
          (later
            (later
              (later (later (posting.1) (notify_none 1 post_notifies none_waits))
                (move 1 Move.unlock_post))
              (move 0 (Move.has_job refl)))
            (move 0 (Move.lock refl)))
          (move 0 (Move.job_appears refl)))
        (move 0 (Move.pluck refl)))
      (move 0 (Move.front refl)),
)

one_at_a_time_example :
    (fronted.0.pool.posted ≡ fronted.0.pool.taken ++ fronted.0.pool.jobs)
    × ((i j : ℕ) → holds (fronted.0.pc i) ≡ true → holds (fronted.0.pc j) ≡ true → i ≡ j)
    × ((i f : ℕ) → fronted.0.pc i ≡ popping f → (rest : List ℕ) × (fronted.0.pool.jobs ≡ f ∷ rest))
    × ((i : ℕ) → fronted.0.pc i ≢ undefined)
one_at_a_time_example = one_at_a_time (fronted.1)

abbrev popped : (t : System) × Step (fronted.0) t
unfolding create posting fronted
popped = (_, move 0 (Move.pop refl))

Step-FifoStep_example : FifoStep (view fronted.0.pool) (view popped.0.pool)
Step-FifoStep_example = Step-FifoStep (fronted.1) (popped.1)
