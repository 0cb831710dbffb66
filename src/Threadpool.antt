-- ===== src/Threadpool.antt =====
-- src/Nettverksprog/Threadpool.cpp: the pool of threads in C++, over `std::queue`.
-- As in Workers, threads are numbers, 0 to `num_threads - 1` those of the pool, and a step is one
-- access to what is shared or one call of the C++ library. The queue is a list, the oldest job
-- first; a thread that calls `front` or `pop` on an empty queue is `undefined` from then on. What a
-- job does does not touch the pool.
pub mod Invariant
pub mod Fifo
mod Tests
use c10k.Base.{
  ℕ, ◌+◌, ◌<◌, ◌≡◌, ◌≢◌, Bool, true, false, Option, none, some, List, [], ◌∷◌, ◌++◌, ltb, ◌==◌,
  if◌then◌else◌,
}

-- `Threadpool`. `jobs_lock` is the thread that holds the mutex. `posted` and `taken` are the
-- history, which no code reads.
pub record Threadpool : Type 0 where
  pub stop : Bool
  pub num_threads : ℕ
  pub jobs : List ℕ
  pub jobs_lock : Option ℕ
  pub posted : List ℕ
  pub taken : List ℕ

-- `std::queue::empty`
abbrev pub empty : List ℕ → Bool
empty [] = true
empty (job ∷ jobs) = false

-- Where a thread stands.
pub data Pc : Type 0 where
  outside : Pc
  check : Pc  -- process: `!jobs.empty()` of the outer loop
  check_stop : Pc  -- `!stop` of the outer loop
  locking : Pc  -- before the unique_lock
  wait_test : Pc  -- `jobs.empty()` of the inner loop
  wait_stop : Pc  -- `!stop` of the inner loop
  sleepy : Pc  -- before cv.wait
  waiting : Pc  -- asleep in it
  woken : Pc  -- awake in it, without the lock
  skip_test : Pc  -- `jobs.empty()` after the inner loop
  skip_stop : Pc  -- `stop` after it
  leaving : Pc  -- before the unlock of the `if`
  leaving_notify : Pc
  reading : Pc  -- before jobs.front()
  popping : (function_p : ℕ) → Pc  -- before jobs.pop()
  unlocking : (function_p : ℕ) → Pc
  notifying : (function_p : ℕ) → Pc
  running : (function_p : ℕ) → Pc
  finished : Pc  -- process has returned
  undefined : Pc  -- jobs.front() or jobs.pop() was called on an empty queue
  post_lock : (function_p : ℕ) → Pc  -- post, before the lock_guard
  pushing : (function_p : ℕ) → Pc
  post_notify : Pc  -- with the lock
  post_unlock : Pc  -- at the end of the lock_guard's scope
  join_test : Pc  -- join, and the destructor, which calls it
  join_set : Pc
  join_notify : Pc
  joining : (i : ℕ) → Pc  -- before the join of thread `i`

-- What thread `i` does by itself.
pub data Move (i : ℕ) (w : Threadpool) : Pc → Threadpool → Pc → Type 0 where
  has_job : empty w.jobs ≡ false → Move i w check w locking
  no_job : empty w.jobs ≡ true → Move i w check w check_stop
  go_on : w.stop ≡ false → Move i w check_stop w locking
  finish : w.stop ≡ true → Move i w check_stop w finished
  lock : w.jobs_lock ≡ none → Move i w locking (record w { jobs_lock = some i }) wait_test
  job_appears : empty w.jobs ≡ false → Move i w wait_test w skip_test
  none_yet : empty w.jobs ≡ true → Move i w wait_test w wait_stop
  stopped : w.stop ≡ true → Move i w wait_stop w skip_test
  not_stopped : w.stop ≡ false → Move i w wait_stop w sleepy
  wait : Move i w sleepy (record w { jobs_lock = none }) waiting
  relock : w.jobs_lock ≡ none → Move i w woken (record w { jobs_lock = some i }) wait_test
  pluck : empty w.jobs ≡ false → Move i w skip_test w reading
  maybe_skip : empty w.jobs ≡ true → Move i w skip_test w skip_stop
  skip : w.stop ≡ true → Move i w skip_stop w leaving
  no_skip : w.stop ≡ false → Move i w skip_stop w reading
  leave : Move i w leaving (record w { jobs_lock = none }) leaving_notify
  front : {f : ℕ} {rest : List ℕ} → w.jobs ≡ f ∷ rest → Move i w reading w (popping f)
  pop :
      {f first : ℕ} {rest : List ℕ}
      → w.jobs ≡ first ∷ rest
      → Move i w (popping f) (record w { jobs = rest; taken = w.taken ++ f ∷ [] }) (unlocking f)
  front_empty : w.jobs ≡ [] → Move i w reading w undefined
  pop_empty : {f : ℕ} → w.jobs ≡ [] → Move i w (popping f) w undefined
  unlock : {f : ℕ} → Move i w (unlocking f) (record w { jobs_lock = none }) (notifying f)
  done : {f : ℕ} → Move i w (running f) w check
  lock_post :
      {f : ℕ}
      → w.jobs_lock ≡ none
      → Move i w (post_lock f) (record w { jobs_lock = some i }) (pushing f)
  push :
      {f : ℕ}
      → Move i w
          (pushing f)
          (record w { jobs = w.jobs ++ f ∷ []; posted = w.posted ++ f ∷ [] })
          post_notify
  unlock_post : Move i w post_unlock (record w { jobs_lock = none }) outside
  call_post : {f : ℕ} → Move i w outside w (post_lock f)
  call_join : Move i w outside w join_test
  join_again : w.stop ≡ true → Move i w join_test w outside
  join_first : w.stop ≡ false → Move i w join_test w join_set
  set_stop : Move i w join_set (record w { stop = true }) join_notify
  join_end : {k : ℕ} → k ≡ w.num_threads → Move i w (joining k) w outside

-- `cv.notify_one()`, wherever it is called. `post` calls it before it gives the lock back.
pub data Notifies : Pc → Pc → Type 0 where
  leaving_notifies : Notifies leaving_notify finished
  worker_notifies : {f : ℕ} → Notifies (notifying f) (running f)
  post_notifies : Notifies post_notify post_unlock
  join_notifies : Notifies join_notify (joining 0)

pub record System : Type 0 where
  pub pool : Threadpool
  pub pc : ℕ → Pc

abbrev pub update : (ℕ → Pc) → ℕ → Pc → ℕ → Pc
update pc i p j = if i == j then p else pc j

-- A notification wakes one thread that waits, if there is one; a thread may also wake unasked.
pub data Step (s : System) : System → Type 0 where
  move :
      (i : ℕ) {w : Threadpool} {p : Pc}
      → Move i s.pool (s.pc i) w p
      → Step s (record { pool = w; pc = update s.pc i p })
  notify_one :
      (i j : ℕ) {p : Pc}
      → Notifies (s.pc i) p
      → s.pc j ≡ waiting
      → Step s (record { pool = s.pool; pc = update (update s.pc i p) j woken })
  notify_none :
      (i : ℕ) {p : Pc}
      → Notifies (s.pc i) p
      → ((j : ℕ) → s.pc j ≢ waiting)
      → Step s (record { pool = s.pool; pc = update s.pc i p })
  join_one :
      (i k : ℕ)
      → s.pc i ≡ joining k
      → k < s.pool.num_threads
      → s.pc k ≡ finished
      → Step s (record { pool = s.pool; pc = update s.pc i (joining (k + 1)) })
  wake : (j : ℕ) → s.pc j ≡ waiting → Step s (record { pool = s.pool; pc = update s.pc j woken })

-- The constructor. A thread that has not started yet has made no step.
pub create : (num_threads : ℕ) → System
create num_threads = record {
  pool = record {
    stop = false;
    num_threads = num_threads;
    jobs = [];
    jobs_lock = none;
    posted = [];
    taken = [];
  };
  pc = λ i. if ltb i num_threads then check else outside;
}

pub data Reach (num_threads : ℕ) : System → Type 0 where
  start : Reach num_threads (create num_threads)
  later : {s t : System} → Reach num_threads s → Step s t → Reach num_threads t
