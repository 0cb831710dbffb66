-- ===== src/Workers.antt =====
-- src/unix/workers.c, include/unix/workers.h: a pool of threads that take jobs from a queue.
-- Threads are numbers: 0 to `num_threads - 1` are the threads of the pool, the others are the rest
-- of the program, which may call `w_post` and `w_join`. One step of one thread is one access to
-- what is shared or one call of the C library; `q_push`, `q_next` and `q_is_empty` count as one
-- access each. The accesses are sequentially consistent. A job is the pair of pointers that
-- `w_post` pushes; what it does when it runs does not touch the pool.
pub mod Invariant
pub mod Safety
pub mod Progress
pub mod Hang
mod Tests
use c10k.Base.{
  ℕ, ◌+◌, ◌<◌, ◌≡◌, ◌≢◌, Bool, true, false, Option, none, some, List, [], ◌∷◌, ◌++◌, ltb, ◌==◌,
  if◌then◌else◌,
}
use c10k.Base.Memory.{Malloc}
use c10k.Queue
use c10k.Queue.{Queue}

-- What one `w_post` pushes: the function and its argument.
abbrev pub Job : Type 0
Job = ℕ × ℕ

-- `workers`. `lock` is the thread that holds `_lock`. `posted` and `taken` are the history: the
-- jobs that `w_post` has put into the queue and those that the threads have plucked from it, oldest
-- first. No code reads them.
pub record Workers : Type 0 where
  pub num_threads : ℕ
  pub stop : Bool
  pub jobs : Queue
  pub lock : Option ℕ
  pub posted : List Job
  pub taken : List Job

-- Where a thread stands, with the local variables that are live there.
pub data Pc : Type 0 where
  outside : Pc  -- in no function of the pool
  check : Pc  -- w_process: `!q_is_empty(w->_jobs)` of the outer loop
  check_stop : Pc  -- `!w->_stop` of the outer loop
  locking : Pc  -- before pthread_mutex_lock
  wait_test : Pc  -- `q_is_empty(w->_jobs)` of the inner loop
  wait_stop : Pc  -- `!w->_stop` of the inner loop
  sleepy : Pc  -- before pthread_cond_wait
  waiting : Pc  -- asleep in it
  woken : Pc  -- awake in it, without the lock
  skip_test : Pc  -- `q_is_empty(w->_jobs)` after the inner loop
  skip_stop : Pc  -- `w->_stop` after it
  leaving : Pc  -- before the unlock of the `if`
  leaving_signal : Pc  -- before its pthread_cond_signal
  plucking : Pc  -- before the first q_next
  plucked : (fn : ℕ) → Pc  -- before the second
  unlocking : (fn args : ℕ) → Pc
  signalling : (fn args : ℕ) → Pc
  running : (fn args : ℕ) → Pc  -- in `function_p(args)`
  finished : Pc  -- w_process has returned
  post_lock : (fn args : ℕ) → Pc  -- w_post, from its first line on
  push_fn : (fn args : ℕ) → Pc
  push_args : (fn args : ℕ) → Pc
  post_unlock : Pc
  post_signal : Pc
  join_test : Pc  -- w_join, from its first line on
  join_set : Pc
  join_signal : Pc
  joining : (i : ℕ) → Pc  -- before the pthread_join of thread `i`

-- What thread `i` does by itself, on the pool `w`.
pub data Move (malloc : Malloc) (i : ℕ) (w : Workers) : Pc → Workers → Pc → Type 0 where
  has_job : Queue.is_empty w.jobs ≡ false → Move malloc i w check w locking
  no_job : Queue.is_empty w.jobs ≡ true → Move malloc i w check w check_stop
  go_on : w.stop ≡ false → Move malloc i w check_stop w locking
  finish : w.stop ≡ true → Move malloc i w check_stop w finished
  lock : w.lock ≡ none → Move malloc i w locking (record w { lock = some i }) wait_test
  job_appears : Queue.is_empty w.jobs ≡ false → Move malloc i w wait_test w skip_test
  none_yet : Queue.is_empty w.jobs ≡ true → Move malloc i w wait_test w wait_stop
  stopped : w.stop ≡ true → Move malloc i w wait_stop w skip_test
  not_stopped : w.stop ≡ false → Move malloc i w wait_stop w sleepy
  wait : Move malloc i w sleepy (record w { lock = none }) waiting
  relock : w.lock ≡ none → Move malloc i w woken (record w { lock = some i }) wait_test
  pluck : Queue.is_empty w.jobs ≡ false → Move malloc i w skip_test w plucking
  maybe_skip : Queue.is_empty w.jobs ≡ true → Move malloc i w skip_test w skip_stop
  skip : w.stop ≡ true → Move malloc i w skip_stop w leaving
  no_skip : w.stop ≡ false → Move malloc i w skip_stop w plucking
  leave : Move malloc i w leaving (record w { lock = none }) leaving_signal
  next_fn :
      {fn : ℕ} {q : Queue}
      → Queue.next w.jobs ≡ some (fn, q)
      → Move malloc i w plucking (record w { jobs = q }) (plucked fn)
  next_args :
      {fn args : ℕ} {q : Queue}
      → Queue.next w.jobs ≡ some (args, q)
      → Move malloc i w
          (plucked fn)
          (record w { jobs = q; taken = w.taken ++ (fn, args) ∷ [] })
          (unlocking fn args)
  unlock :
      {fn args : ℕ}
      → Move malloc i w (unlocking fn args) (record w { lock = none }) (signalling fn args)
  done : {fn args : ℕ} → Move malloc i w (running fn args) w check
  lock_post :
      {fn args : ℕ}
      → w.lock ≡ none
      → Move malloc i w (post_lock fn args) (record w { lock = some i }) (push_fn fn args)
  push_first :
      {fn args : ℕ} {q : Queue}
      → Queue.push malloc w.jobs fn ≡ some q
      → Move malloc i w (push_fn fn args) (record w { jobs = q }) (push_args fn args)
  push_second :
      {fn args : ℕ} {q : Queue}
      → Queue.push malloc w.jobs args ≡ some q
      → Move malloc i w
          (push_args fn args)
          (record w { jobs = q; posted = w.posted ++ (fn, args) ∷ [] })
          post_unlock
  unlock_post : Move malloc i w post_unlock (record w { lock = none }) post_signal
  call_join : Move malloc i w outside w join_test
  join_again : w.stop ≡ true → Move malloc i w join_test w outside
  join_first : w.stop ≡ false → Move malloc i w join_test w join_set
  set_stop : Move malloc i w join_set (record w { stop = true }) join_signal
  join_end : {k : ℕ} → k ≡ w.num_threads → Move malloc i w (joining k) w outside

-- `pthread_cond_signal`, wherever it is called.
pub data Signals : Pc → Pc → Type 0 where
  leaving_signals : Signals leaving_signal finished
  worker_signals : {fn args : ℕ} → Signals (signalling fn args) (running fn args)
  post_signals : Signals post_signal outside
  join_signals : Signals join_signal (joining 0)

pub record System : Type 0 where
  pub pool : Workers
  pub pc : ℕ → Pc

abbrev pub update : (ℕ → Pc) → ℕ → Pc → ℕ → Pc
update pc i p j = if i == j then p else pc j

-- What a step is: something that a thread of the program does, the start of a `w_post`, or a return
-- from pthread_cond_wait that no signal has caused, which POSIX permits.
pub data Event : Type 0 where
  act post spurious : Event

-- A signal wakes one thread that waits, if there is one.
pub data Step (malloc : Malloc) (s : System) : Event → System → Type 0 where
  move :
      (i : ℕ) {w : Workers} {p : Pc}
      → Move malloc i s.pool (s.pc i) w p
      → Step malloc s act (record { pool = w; pc = update s.pc i p })
  signal_one :
      (i j : ℕ) {p : Pc}
      → Signals (s.pc i) p
      → s.pc j ≡ waiting
      → Step malloc s act (record { pool = s.pool; pc = update (update s.pc i p) j woken })
  signal_none :
      (i : ℕ) {p : Pc}
      → Signals (s.pc i) p
      → ((j : ℕ) → s.pc j ≢ waiting)
      → Step malloc s act (record { pool = s.pool; pc = update s.pc i p })
  join_one :
      (i k : ℕ)
      → s.pc i ≡ joining k
      → k < s.pool.num_threads
      → s.pc k ≡ finished
      → Step malloc s act (record { pool = s.pool; pc = update s.pc i (joining (k + 1)) })
  call_post :
      (i fn args : ℕ)
      → s.pc i ≡ outside
      → Step malloc s post (record { pool = s.pool; pc = update s.pc i (post_lock fn args) })
  wake :
      (j : ℕ)
      → s.pc j ≡ waiting
      → Step malloc s spurious (record { pool = s.pool; pc = update s.pc j woken })

-- `w_create`. A thread that pthread_create has not started yet has made no step.
pub create : Malloc → (num_threads : ℕ) → System
create malloc num_threads = record {
  pool = record {
    num_threads = num_threads;
    stop = false;
    jobs = Queue.create malloc;
    lock = none;
    posted = [];
    taken = [];
  };
  pc = λ i. if ltb i num_threads then check else outside;
}

pub data Reach (malloc : Malloc) (num_threads : ℕ) : System → Type 0 where
  start : Reach malloc num_threads (create malloc num_threads)
  later :
      {s t : System} {e : Event}
      → Reach malloc num_threads s
      → Step malloc s e t
      → Reach malloc num_threads t
