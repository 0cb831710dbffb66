-- ===== src/Threadpool/Fifo.antt =====
-- The pool as a queue of jobs: what each step is to one who sees only which jobs are still to run,
-- which have been given to a thread, and whether the pool is to stop.
use c10k.Base.{ℕ, ◌≡◌, ◌≢◌, subst, sym, ◌∙◌, Bool, true, some, List, [], ◌∷◌, ◌++◌, arith}
use c10k.Threadpool.{
  Threadpool, System, Pc, popping, undefined, Move, pop, push, set_stop, Step, move, notify_one,
  notify_none, join_one, wake, Reach,
}
use c10k.Threadpool.Invariant.{holds, Known, Reach-Inv}

pub record Fifo : Type 0 where
  pub pending : List ℕ
  pub given : List ℕ
  pub stopped : Bool

pub data FifoStep (v : Fifo) : Fifo → Type 0 where
  stays : FifoStep v v
  posts : (job : ℕ) → FifoStep v (record v { pending = v.pending ++ job ∷ [] })
  gives :
      (job : ℕ) (rest : List ℕ)
      → v.pending ≡ job ∷ rest
      → FifoStep v (record v { pending = rest; given = v.given ++ job ∷ [] })
  stops : FifoStep v (record v { stopped = true })

abbrev pub view : Threadpool → Fifo
view w = record { pending = w.jobs; given = w.taken; stopped = w.stop }

Move-FifoStep :
    {i : ℕ} {w w' : Threadpool} {p p' : Pc}
    → Move i w p w' p'
    → Known w p
    → FifoStep (view w) (view w')
Move-FifoStep {w = w} (pop {f} {first} {rest} g) (rest', e) =
    let same : w.jobs ≡ f ∷ rest = cc in gives f rest same
Move-FifoStep (push {f}) k = posts f
Move-FifoStep set_stop k = stops
Move-FifoStep _ k = stays

module _ {n : ℕ} {s : System} (r : Reach n s) where
  -- In every state that a pool can reach, any further step of any thread does one of four things to
  -- the jobs: nothing; one job is put behind the pending ones; the oldest pending job, and no other,
  -- is given to a thread; or the pool is told to stop.
  pub Step-FifoStep : {t : System} → Step s t → FifoStep (view s.pool) (view t.pool)
  Step-FifoStep (move i mv) = Move-FifoStep mv ((Reach-Inv r).known i)
  Step-FifoStep (notify_one i j n e) = stays
  Step-FifoStep (notify_none i n none_waits) = stays
  Step-FifoStep (join_one i k e lt fin) = stays
  Step-FifoStep (wake j e) = stays

  -- In every state that a pool can reach, the jobs posted are those given to threads and then those
  -- pending, in the order of posting, and at most one thread stands between a lock of the mutex and
  -- the next unlock or wait; a thread that has read the front of the queue will pop that job, and
  -- the queue is not empty then; and no thread has called `front` or `pop` on an empty queue, which
  -- would be undefined.
  pub one_at_a_time :
      (s.pool.posted ≡ s.pool.taken ++ s.pool.jobs)
      × ((i j : ℕ) → holds (s.pc i) ≡ true → holds (s.pc j) ≡ true → i ≡ j)
      × ((i f : ℕ) → s.pc i ≡ popping f → (rest : List ℕ) × (s.pool.jobs ≡ f ∷ rest))
      × ((i : ℕ) → s.pc i ≢ undefined)
  one_at_a_time =
      let v = Reach-Inv r in
      (
        v.order,
        λ i j a b.
            let same : some i ≡ some j = sym (v.owner.own i a) ∙ v.owner.own j b in ground arith,
        λ i f e. rw e at (v.known i),
        λ i e. subst (Known s.pool) e (v.known i),
      )
