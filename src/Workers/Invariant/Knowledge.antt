-- ===== src/Workers/Invariant/Knowledge.antt =====
-- A move keeps what its thread and the others know.
use c10k.Base.{
  ℕ, ◌≡◌, ◌≢◌, sym, ◌∙◌, refl, ◌⊎◌, inl, inr, true, false, some, arith, ◌==◌, Bool-cases,
}
use c10k.Base.Memory.{Malloc}
use c10k.Workers.{
  leaving_signals, worker_signals, post_signals, join_signals, finish, none_yet, stopped,
  not_stopped, job_appears, pluck, maybe_skip, skip, no_skip, leave, Workers, Pc, update, Move,
  next_fn, next_args, push_first, push_second, set_stop, wait_stop, skip_test, skip_stop, sleepy,
  leaving, leaving_signal, finished, plucking, join_signal, joining, Signals,
}
use c10k.Workers.Invariant.Defs.{holds, Known, Owns}

some-eq : {i j : ℕ} → some i ≡ some j → i ≡ j
some-eq e = ground arith

==-false_ne : (i j : ℕ) → (i == j) ≡ false → i ≢ j
==-false_ne i j e = ground arith

-- What a move of one thread changes for the others: the flag only ever becomes 1, and only the
-- owner of the lock changes the queue.
pub record Later (w w' : Workers) (p : Pc) : Type 0 where
  pub stops : w.stop ≡ true → w'.stop ≡ true
  pub jobs : (w'.jobs ≡ w.jobs) ⊎ (holds p ≡ true)
  pub size : w'.num_threads ≡ w.num_threads

pub Move-Later :
    {malloc : Malloc} {i : ℕ} {w w' : Workers} {p p' : Pc} → Move malloc i w p w' p' → Later w w' p
Move-Later (next_fn g) = record { stops = λ e. e; jobs = inr refl; size = refl }
Move-Later (next_args g) = record { stops = λ e. e; jobs = inr refl; size = refl }
Move-Later (push_first g) = record { stops = λ e. e; jobs = inr refl; size = refl }
Move-Later (push_second g) = record { stops = λ e. e; jobs = inr refl; size = refl }
Move-Later set_stop = record { stops = λ e. refl; jobs = inl refl; size = refl }
Move-Later _ = record { stops = λ e. e; jobs = inl refl; size = refl }

pub Known-later :
    (w w' : Workers)
    → (w.stop ≡ true → w'.stop ≡ true)
    → (p : Pc) → (holds p ≡ true → w'.jobs ≡ w.jobs)
    → Known w p
    → Known w' p
Known-later w w' stops wait_stop jobs k = rw (jobs refl) k
Known-later w w' stops sleepy jobs k = rw (jobs refl) k
Known-later w w' stops skip_test jobs k = λ e. stops (k (rw (jobs refl) at e))
Known-later w w' stops skip_stop jobs k = stops k
Known-later w w' stops leaving jobs k = stops k
Known-later w w' stops leaving_signal jobs k = stops k
Known-later w w' stops finished jobs k = stops k
Known-later w w' stops plucking jobs k = rw (jobs refl) k
Known-later w w' stops join_signal jobs k = stops k
Known-later w w' stops (joining _) jobs k = stops k
Known-later w w' stops _ jobs k = tt

-- What a thread knows after its own move.
pub Move-Known :
    {malloc : Malloc} {i : ℕ} {w w' : Workers} {p p' : Pc}
    → Move malloc i w p w' p'
    → Known w p
    → Known w' p'
Move-Known (finish g) k = g
Move-Known (none_yet g) k = g
Move-Known (stopped g) k = λ _. g
Move-Known (not_stopped g) k = k
Move-Known (job_appears g) k = λ e. cc
Move-Known (pluck g) k = g
Move-Known (maybe_skip g) k = k g
Move-Known (skip g) k = g
Move-Known (no_skip g) k = cc
Move-Known leave k = k
Move-Known set_stop k = refl
Move-Known _ k = tt

pub Signals-Known : (w : Workers) {p p' : Pc} → Signals p p' → Known w p → Known w p'
Signals-Known w leaving_signals k = k
Signals-Known w worker_signals k = tt
Signals-Known w post_signals k = tt
Signals-Known w join_signals k = k

-- What every thread knows after thread `i` has gone from `pc i` to `p'`.
pub Known-update :
    (w w' : Workers) (pc : ℕ → Pc) (i : ℕ) (p' : Pc)
    → Owns w.lock pc
    → Later w w' (pc i)
    → ((j : ℕ) → Known w (pc j))
    → Known w' p'
    → (j : ℕ) → Known w' (update pc i p' j)
Known-update w w' pc i p' o later known here j = elim (Bool-cases (i == j)) [
  | inl e ↦ rw e here
  | inr e ↦ rw e (Known-later w w' later.stops (pc j) (same (==-false_ne i j e)) (known j))
]
  where
    same : i ≢ j → holds (pc j) ≡ true → w'.jobs ≡ w.jobs
    same ne h = elim later.jobs [
      | inl e ↦ e
      | inr h' ↦ absurd (ne (some-eq (sym (o.own i h') ∙ o.own j h)))
    ]
