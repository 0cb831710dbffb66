-- ===== src/Workers/Progress.antt =====
-- No job is left lying while every thread sleeps.
mod Awake
mod Able
pub use Awake.{awake, member, Busy}
pub use Able.{Can}
use Able.{awake-Can}
use Awake.{member-awake, Move-member, Signals-member, Awakens, up, idle, aside, Move-Awakens}
use c10k.Base.{
  ℕ, zero, suc, ◌+◌, ◌*◌, ◌^◌, ◌≤◌, ◌<◌, ◌≡◌, ◌≢◌, refl, ap, sym, subst, ◌∙◌, Bool, true, false,
  Option, none, some, List, [], ◌∷◌, ◌++◌, length, length-append, arith, ltb, ◌==◌, if◌then◌else◌,
  Bool-cases, Option-cases, inl, inr,
}
use c10k.Base.Memory.{Malloc, Gives}
use c10k.Queue
use c10k.Queue.{Queue}
use c10k.Queue.Represents.{create-Represents, is_empty-Represents}
use c10k.Workers.{
  Workers, System, Pc, check, outside, finished, woken, waiting, joining, locking, post_lock,
  push_fn, push_args, post_unlock, post_signal, join_test, join_set, join_signal, wait_test,
  wait_stop, sleepy, skip_test, skip_stop, leaving, leaving_signal, plucking, plucked, unlocking,
  signalling, running, check_stop, update, Move, Signals, leaving_signals, worker_signals,
  post_signals, join_signals, Event, Step, move, signal_one, signal_none, join_one, call_post, wake,
  create, Reach, start, later,
}
use c10k.Workers.Invariant.{Move-Later, holds, Known, Inv, Step-Inv, Reach-Inv, still_waiting}

record Lively (s : System) : Type 0 where
  members : (i : ℕ) → i < s.pool.num_threads → member (s.pc i) ≡ true
  some_awake : Busy s.pool → (i : ℕ) × (awake (s.pc i) ≡ true)

update-member :
    (pc : ℕ → Pc) (i : ℕ) (p : Pc) (j : ℕ)
    → (member (pc i) ≡ true → member p ≡ true)
    → member (pc j) ≡ true
    → member (update pc i p j) ≡ true
update-member pc i p j keeps m = elim (Bool-cases (i == j)) [
  | inl e ↦ let at : i ≡ j = ground arith in rw e (keeps (ap (λ n. member (pc n)) at ∙ m))
  | inr e ↦ rw e m
]

update_self : (pc : ℕ → Pc) (i : ℕ) (p : Pc) → update pc i p i ≡ p
update_self pc i p = let hit : (i == i) ≡ true = ground arith in rw hit refl

-- A thread that is awake is not the one that is not.
other_awake :
    (pc : ℕ → Pc) (i : ℕ) (p : Pc)
    → awake (pc i) ≡ false
    → (j : ℕ) × (awake (pc j) ≡ true)
    → (j : ℕ) × (awake (update pc i p j) ≡ true)
other_awake pc i p off (j, on) = elim (Bool-cases (i == j)) [
  | inl e ↦
      let at : i ≡ j = ground arith in absurd (clash (sym off ∙ (ap (λ n. awake (pc n)) at ∙ on)))
  | inr e ↦ (j, rw e on)
]
  where
    clash : false ≡ true → ⊥
    clash x = cc

-- While nobody sleeps, thread 0 is awake.
first_awake :
    {s : System}
    → Inv s
    → ((i : ℕ) → i < s.pool.num_threads → member (s.pc i) ≡ true)
    → 0 < s.pool.num_threads
    → ((j : ℕ) → s.pc j ≢ waiting)
    → Busy s.pool
    → (i : ℕ) × (awake (s.pc i) ≡ true)
first_awake {s} v members some_thread none_waits busy =
    (0, member-awake (s.pc 0) (members 0 some_thread) (none_waits 0) alive)
  where
    alive : s.pc 0 ≢ finished
    alive e = let stopped = subst (Known s.pool) e (v.known 0) in cc

signal-not-waiting :
    (pc : ℕ → Pc) (i : ℕ) {p : Pc}
    → Signals (pc i) p
    → ((j : ℕ) → pc j ≢ waiting)
    → (j : ℕ) → update pc i p j ≢ waiting
signal-not-waiting pc i {p} sg none_waits j e = elim (Bool-cases (i == j)) [
  | inl at ↦ not_after sg (rw at at e)
  | inr other ↦ none_waits j (rw other at e)
]
  where
    not_after : {q q' : Pc} → Signals q q' → q' ≢ waiting
    not_after leaving_signals x = cc
    not_after worker_signals x = cc
    not_after post_signals x = cc
    not_after join_signals x = cc

Step-Lively :
    {malloc : Malloc} {s t : System} {e : Event}
    → Gives malloc (2 ^ 33)
    → 0 < s.pool.num_threads
    → Inv s
    → Step malloc s e t
    → Lively s
    → Lively t
Step-Lively {malloc} {s} gives some_thread v (move i {w} {p} mv) l = record {
  members = λ j lt.
      update-member s.pc i p j (Move-member mv) (l.members j (rw (Move-Later mv).size at lt));
  some_awake = λ busy. elim (Move-Awakens mv (v.known i)) [
    | up on ↦ (i, ap awake (update_self s.pc i p) ∙ on)
    | idle never ↦ absurd (never busy)
    | aside off was ↦ other_awake s.pc i p off (l.some_awake (was busy))
  ];
}
Step-Lively {malloc} {s} gives some_thread v (signal_one i j {p} sg e) l = record {
  members = λ k lt.
      update-member (update s.pc i p) j woken k (λ _. refl)
        (update-member s.pc i p k (Signals-member sg) (l.members k lt));
  some_awake = λ busy. (j, ap awake (update_self (update s.pc i p) j woken));
}
Step-Lively {malloc} {s} gives some_thread v (signal_none i {p} sg none_waits) l =
    let v' = Step-Inv {malloc = malloc} gives (signal_none i sg none_waits) v in
    let members = λ (k : ℕ) (lt : k < s.pool.num_threads).
      update-member s.pc i p k (Signals-member sg) (l.members k lt) in
    record {
      members = members;
      some_awake = first_awake v' members some_thread (signal-not-waiting s.pc i sg none_waits);
    }
Step-Lively {malloc} {s} gives some_thread v (join_one i k e lt fin) l = record {
  members = λ j lt'.
      update-member s.pc i (joining (k + 1)) j (λ m. not_member (rw e at m)) (l.members j lt');
  some_awake = λ busy. other_awake s.pc i (joining (k + 1)) (ap awake e) (l.some_awake busy);
}
  where
    not_member : member (joining k) ≡ true → member (joining (k + 1)) ≡ true
    not_member m = cc
Step-Lively {malloc} {s} gives some_thread v (call_post i fn args e) l = record {
  members = λ j lt.
      update-member s.pc i (post_lock fn args) j (λ m. not_member (rw e at m)) (l.members j lt);
  some_awake = λ busy. (i, ap awake (update_self s.pc i (post_lock fn args)));
}
  where
    not_member : member outside ≡ true → member (post_lock fn args) ≡ true
    not_member m = cc
Step-Lively {malloc} {s} gives some_thread v (wake j e) l = record {
  members = λ k lt. update-member s.pc j woken k (λ _. refl) (l.members k lt);
  some_awake = λ busy. (j, ap awake (update_self s.pc j woken));
}

Step-size :
    {malloc : Malloc} {s t : System} {e : Event}
    → Step malloc s e t
    → t.pool.num_threads ≡ s.pool.num_threads
Step-size (move i mv) = (Move-Later mv).size
Step-size (signal_one i j sg e) = refl
Step-size (signal_none i sg none_waits) = refl
Step-size (join_one i k e lt fin) = refl
Step-size (call_post i fn args e) = refl
Step-size (wake j e) = refl

Reach-size : {malloc : Malloc} {n : ℕ} {s : System} → Reach malloc n s → s.pool.num_threads ≡ n
unfolding create
Reach-size start = refl
Reach-size (later r st) = Step-size st ∙ Reach-size r

create-Lively : (malloc : Malloc) (n : ℕ) → Gives malloc (2 ^ 33) → Lively (create malloc n)
unfolding create
create-Lively malloc n gives = record {
  members = λ i lt. let below : ltb i n ≡ true = ground arith in rw below refl;
  some_awake = λ busy.
      let empty =
        (is_empty-Represents [] (create-Represents malloc (λ m le. gives m (omega arith)))).1
          refl in
      absurd (clash (sym (busy.1) ∙ empty));
}
  where
    clash : false ≡ true → ⊥
    clash x = cc

Reach-Lively :
    {malloc : Malloc} {n : ℕ} {s : System}
    → Gives malloc (2 ^ 33)
    → 0 < n
    → Reach malloc n s
    → Lively s
Reach-Lively {malloc} {n} gives some_thread start = create-Lively malloc n gives
Reach-Lively gives some_thread (later r st) =
    Step-Lively gives (rw (Reach-size r) some_thread) (Reach-Inv gives r) st
      (Reach-Lively gives some_thread r)

-- With memory, for a pool with a thread and in every state that it can reach: if a job is in the
-- queue, the flag is not set and less than `2 ^ 29` jobs have been posted, then some thread that is
-- in w_process or `w_post` and not asleep can make its next move or signal.
pub jobs_progress :
    {malloc : Malloc} {n : ℕ} {s : System}
    → Gives malloc (2 ^ 33)
    → 0 < n
    → Reach malloc n s
    → s.pool.stop ≡ false
    → Queue.is_empty s.pool.jobs ≡ false
    → length s.pool.posted < 2 ^ 29
    → (i : ℕ) × (awake (s.pc i) ≡ true) × Can malloc i s.pool (s.pc i)
jobs_progress {malloc} {n} {s} gives some_thread r runs full few =
    let (i, on) = (Reach-Lively gives some_thread r).some_awake (runs, full) in
    awake-Can gives (Reach-Inv gives r) few i on
