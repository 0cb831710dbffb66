-- ===== src/Workers/Invariant/Defs.antt =====
-- What holds of the lock, of the threads' knowledge and of the queue in every state.
use c10k.Base.{ℕ, ◌≡◌, Bool, true, false, Option, none, some, List, [], ◌∷◌, ◌++◌}
use c10k.Queue
use c10k.Queue.{Queue}
use c10k.Queue.Represents.{Represents}
use c10k.Workers.{
  Job, Workers, System, Pc, wait_test, wait_stop, sleepy, skip_test, skip_stop, leaving,
  leaving_signal, plucking, plucked, unlocking, finished, push_fn, push_args, post_unlock,
  join_signal, joining,
}

-- Between a lock and the next unlock or wait.
abbrev pub holds : Pc → Bool
holds wait_test = true
holds wait_stop = true
holds sleepy = true
holds skip_test = true
holds skip_stop = true
holds leaving = true
holds plucking = true
holds (plucked _) = true
holds (unlocking _ _) = true
holds (push_fn _ _) = true
holds (push_args _ _) = true
holds post_unlock = true
holds _ = false

-- What a thread has seen and still holds.
abbrev pub Known : Workers → Pc → Type 0
Known w wait_stop = Queue.is_empty w.jobs ≡ true
Known w sleepy = Queue.is_empty w.jobs ≡ true
Known w skip_test = Queue.is_empty w.jobs ≡ true → w.stop ≡ true
Known w skip_stop = w.stop ≡ true
Known w leaving = w.stop ≡ true
Known w leaving_signal = w.stop ≡ true
Known w finished = w.stop ≡ true
Known w plucking = Queue.is_empty w.jobs ≡ false
Known w join_signal = w.stop ≡ true
Known w (joining _) = w.stop ≡ true
Known w _ = Unit

-- How much of a job is in the queue: whole jobs only, or all but the function that the owner of the
-- lock has plucked, or one function more that it has pushed.
pub data Part : Type 0 where
  whole : Part
  got : (fn : ℕ) → Part
  put : (fn : ℕ) → Part

abbrev pub part : Pc → Part
part (plucked fn) = got fn
part (push_args fn args) = put fn
part _ = whole

abbrev pub part_of : Option ℕ → (ℕ → Pc) → Part
part_of none pc = whole
part_of (some i) pc = part (pc i)

-- The pointers of the jobs, in order.
abbrev pub flat : List Job → List ℕ
flat [] = []
flat ((fn, args) ∷ jobs) = fn ∷ args ∷ flat jobs

abbrev pub Content : Queue → Part → List Job → Type 0
Content q whole queued = Represents q (flat queued)
Content q (got fn) queued =
    (args : ℕ) × (rest : List Job) × (queued ≡ (fn, args) ∷ rest) × Represents q (args ∷ flat rest)
Content q (put fn) queued = Represents q (flat queued ++ fn ∷ [])

-- The queue holds the jobs that have been posted and not taken, in order.
pub record Ledger (w : Workers) (p : Part) : Type 0 where
  pub queued : List Job
  pub order : w.posted ≡ w.taken ++ queued
  pub content : Content w.jobs p queued

-- The lock is held by the thread, if any, that stands between a lock and an unlock.
pub record Owns (l : Option ℕ) (pc : ℕ → Pc) : Type 0 where
  pub own : (i : ℕ) → holds (pc i) ≡ true → l ≡ some i
  pub owned : (i : ℕ) → l ≡ some i → holds (pc i) ≡ true

pub record Inv (s : System) : Type 0 where
  pub owner : Owns s.pool.lock s.pc
  pub known : (i : ℕ) → Known s.pool (s.pc i)
  pub ledger : Ledger s.pool (part_of s.pool.lock s.pc)
