-- ===== src/Workers/Progress/Able.antt =====
-- What a thread that is awake can do next, or the thread that holds the lock.
use c10k.Base.{
  ℕ, ◌*◌, ◌^◌, ◌≤◌, ◌<◌, ◌≡◌, refl, ap, sym, subst, ◌∙◌, true, false, none, some, List, [], ◌∷◌,
  length, length-append, arith, Bool-cases, Option-cases, inl, inr,
}
use c10k.Base.Memory.{Malloc, Gives}
use c10k.Queue
use c10k.Queue.{Queue}
use c10k.Workers.{
  Job, Workers, System, Pc, check, outside, finished, woken, waiting, joining, locking, post_lock,
  push_fn, push_args, post_unlock, post_signal, join_test, join_set, join_signal, wait_test,
  wait_stop, sleepy, skip_test, skip_stop, leaving, leaving_signal, plucking, plucked, unlocking,
  signalling, running, check_stop, Move, Signals, leaving_signals, worker_signals, post_signals,
}
use c10k.Workers.Invariant.{holds, Known, Inv}
use c10k.Workers.Progress.Awake.{awake}
use c10k.Workers.Invariant.{Part, Ledger, part, part_of, flat}
use c10k.Queue.Represents.{next-cons}
use c10k.Queue.Push.{push-Represents}
use c10k.Workers.Safety.{oldest}

-- Thread `i` can make a move from `p`, or signals there, which never blocks.
pub data Can (malloc : Malloc) (i : ℕ) (w : Workers) (p : Pc) : Type 0 where
  moves : {w' : Workers} {p' : Pc} → Move malloc i w p w' p' → Can malloc i w p
  signals : {p' : Pc} → Signals p p' → Can malloc i w p

length-flat : (jobs : List Job) → length (flat jobs) ≡ 2 * length jobs
length-flat [] = refl
length-flat ((fn, args) ∷ jobs) = omega (arith, length-flat jobs)

module _ {malloc : Malloc} (gives : Gives malloc (2 ^ 33)) (i : ℕ) (w : Workers) where
  on_test :
      {p : Pc}
      → (Queue.is_empty w.jobs ≡ true → Can malloc i w p)
      → (Queue.is_empty w.jobs ≡ false → Can malloc i w p)
      → Can malloc i w p
  on_test a b = elim (Bool-cases (Queue.is_empty w.jobs)) [ inl e ↦ a e | inr e ↦ b e ]

  on_stop :
      {p : Pc}
      → (w.stop ≡ true → Can malloc i w p)
      → (w.stop ≡ false → Can malloc i w p)
      → Can malloc i w p
  on_stop a b = elim (Bool-cases w.stop) [ inl e ↦ a e | inr e ↦ b e ]

  queued-le : {p : Part} (l : Ledger w p) → length (flat l.queued) ≤ 2 * length w.posted
  queued-le l =
      omega (arith, length-flat l.queued, ap length l.order, length-append w.taken l.queued)

  -- The owner of the lock.
  holder-Can :
      (p : Pc)
      → holds p ≡ true
      → Known w p
      → length w.posted < 2 ^ 29
      → Ledger w (part p)
      → Can malloc i w p
  holder-Can wait_test h k few l =
      on_test (λ e. moves (Move.none_yet e)) (λ e. moves (Move.job_appears e))
  holder-Can wait_stop h k few l =
      on_stop (λ e. moves (Move.stopped e)) (λ e. moves (Move.not_stopped e))
  holder-Can sleepy h k few l = moves Move.wait
  holder-Can skip_test h k few l =
      on_test (λ e. moves (Move.maybe_skip e)) (λ e. moves (Move.pluck e))
  holder-Can skip_stop h k few l = moves (Move.skip k)
  holder-Can leaving h k few l = moves Move.leave
  holder-Can plucking h k few l =
      let (fn, args, rest, q, q', o, first, _, _) = oldest w l.queued k l.order l.content in
      moves (Move.next_fn first)
  holder-Can (plucked fn) h k few l =
      let (args, rest, is, r) = l.content in
      let (q, runs, _, _) = next-cons r in moves (Move.next_args runs)
  holder-Can (unlocking fn args) h k few l = moves Move.unlock
  holder-Can (push_fn fn args) h k few l =
      let (q, runs, _) = push-Represents malloc fn gives l.content (omega (arith, queued-le l)) in
      moves (Move.push_first runs)
  holder-Can (push_args fn args) h k few l =
      let (q, runs, _) =
        push-Represents malloc args gives l.content
          (omega (arith, queued-le l, length-append (flat l.queued) (fn ∷ []))) in
      moves (Move.push_second runs)
  holder-Can post_unlock h k few l = moves Move.unlock_post
  holder-Can _ h k few l = cc

  -- A thread that does not hold the lock, while nobody does.
  free-Can : (p : Pc) → awake p ≡ true → holds p ≡ false → w.lock ≡ none → Can malloc i w p
  free-Can check a h free = on_test (λ e. moves (Move.no_job e)) (λ e. moves (Move.has_job e))
  free-Can check_stop a h free = on_stop (λ e. moves (Move.finish e)) (λ e. moves (Move.go_on e))
  free-Can locking a h free = moves (Move.lock free)
  free-Can woken a h free = moves (Move.relock free)
  free-Can leaving_signal a h free = signals leaving_signals
  free-Can (signalling fn args) a h free = signals worker_signals
  free-Can (running fn args) a h free = moves Move.done
  free-Can (post_lock fn args) a h free = moves (Move.lock_post free)
  free-Can post_signal a h free = signals post_signals
  free-Can _ a h free = cc

-- If a thread is awake, it or the owner of the lock is awake and can go on.
pub awake-Can :
    {malloc : Malloc} {s : System}
    → Gives malloc (2 ^ 33)
    → Inv s
    → length s.pool.posted < 2 ^ 29
    → (i : ℕ) → awake (s.pc i) ≡ true
    → (j : ℕ) × (awake (s.pc j) ≡ true) × Can malloc j s.pool (s.pc j)
awake-Can {malloc} {s} gives v few i on = elim (Option-cases s.pool.lock) [
  | inl free ↦ elim (Bool-cases (holds (s.pc i))) [
    | inl h ↦ let mine = v.owner.own i h in absurd (none-some (sym free ∙ mine))
    | inr h ↦ (i, on, free-Can gives i s.pool (s.pc i) on h free)
  ]
  | inr (k, taken) ↦
      let h = v.owner.owned k taken in
      let mine : Ledger s.pool (part (s.pc k)) =
        subst (λ o. Ledger s.pool (part_of o s.pc)) taken v.ledger in
      (k, holder-awake (s.pc k) h, holder-Can gives k s.pool (s.pc k) h (v.known k) few mine)
]
  where
    none-some : {k : ℕ} → none ≡ some k → ⊥
    none-some e = cc

    holder-awake : (p : Pc) → holds p ≡ true → awake p ≡ true
    holder-awake outside h = cc
    holder-awake waiting h = cc
    holder-awake finished h = cc
    holder-awake join_test h = cc
    holder-awake join_set h = cc
    holder-awake join_signal h = cc
    holder-awake (joining _) h = cc
    holder-awake _ h = refl
