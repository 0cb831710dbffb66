-- ===== src/Workers/Hang.antt =====
-- The wake-up that `w_join` loses. It sets the flag and signals without the lock, so a thread that
-- has read the flag and not yet gone to sleep misses both.
mod Stuck
pub use Stuck.{Idle, Hung, Quietly}
use c10k.Base.{
  ℕ, zero, suc, ◌+◌, ◌^◌, ◌<◌, ◌≡◌, ◌≢◌, refl, ap, sym, subst, ◌∙◌, ◌⊎◌, inl, inr, Bool, true,
  false, Option, none, some, [], arith, ltb, ◌==◌, if◌then◌else◌, Bool-cases,
}
use c10k.Base.Memory.{Malloc, Gives}
use c10k.Queue
use c10k.Queue.Represents.{create-Represents, is_empty-Represents}
use c10k.Workers.Hang.Stuck.{
  idle_check, idle_check_stop, idle_finished, idle_outside, idle_join, Quietly-Hung,
}
use c10k.Workers.{
  Workers, System, Pc, check, check_stop, locking, wait_test, wait_stop, sleepy, waiting, outside,
  finished, join_test, join_set, join_signal, joining, update, Move, Signals, join_signals, Event,
  act, post, spurious, Step, move, signal_one, signal_none, join_one, call_post, wake, create,
  Reach, start, later,
}

-- Some moves of one thread in a row.
data Moves (malloc : Malloc) (i : ℕ) (w : Workers) (p : Pc) : Workers → Pc → Type 0 where
  none_yet : Moves malloc i w p w p
  more :
      {w' w'' : Workers} {p' p'' : Pc}
      → Moves malloc i w p w' p'
      → Move malloc i w' p' w'' p''
      → Moves malloc i w p w'' p''

record Ran (malloc : Malloc) (n i : ℕ) (s : System) (w : Workers) (p : Pc) : Type 0 where
  last : System
  reach : Reach malloc n last
  pool : last.pool ≡ w
  here : last.pc i ≡ p
  others : (j : ℕ) → j ≢ i → last.pc j ≡ s.pc j

update_self : (pc : ℕ → Pc) (i : ℕ) (p : Pc) → update pc i p i ≡ p
update_self pc i p = let hit : (i == i) ≡ true = ground arith in rw hit refl

update_ne : (pc : ℕ → Pc) (i j : ℕ) (p : Pc) → j ≢ i → update pc i p j ≡ pc j
update_ne pc i j p ne = let miss : (i == j) ≡ false = ground arith in rw miss refl

Moves-Ran :
    {malloc : Malloc} {n : ℕ} (i : ℕ) (s : System) {w : Workers} {p : Pc} {w' : Workers} {p' : Pc}
    → Reach malloc n s
    → s.pool ≡ w
    → s.pc i ≡ p
    → Moves malloc i w p w' p'
    → Ran malloc n i s w' p'
Moves-Ran i s r same at none_yet = record {
  last = s;
  reach = r;
  pool = same;
  here = at;
  others = λ j ne. refl;
}
Moves-Ran {malloc} i s r same at (more {w''} {p''} ms mv) =
    let before = Moves-Ran i s r same at ms in
    let t = before.last in
    let mv' : Move malloc i t.pool (t.pc i) w'' p'' = rw (before.pool, before.here) mv in
    record {
      last = record { pool = w''; pc = update t.pc i p'' };
      reach = later before.reach (move i mv');
      pool = refl;
      here = update_self t.pc i p'';
      others = λ j ne. update_ne t.pc i j p'' ne ∙ before.others j ne;
    }

module _ (malloc : Malloc) (gives : Gives malloc 64) (n : ℕ) (some_thread : 0 < n) where
  abbrev w0 : Workers
  w0 = (create malloc n).pool

  no_jobs_at_first : Queue.is_empty w0.jobs ≡ true
  unfolding create
  no_jobs_at_first = (is_empty-Represents [] (create-Represents malloc gives)).1 refl

  -- Thread 0 goes through w_process up to its pthread_cond_wait.
  to_sleep : Moves malloc 0 w0 check (record w0 { lock = some 0 }) sleepy
  unfolding create
  to_sleep =
      more
        (more
          (more (more (more none_yet (Move.no_job no_jobs_at_first)) (Move.go_on refl))
            (Move.lock refl))
          (Move.none_yet no_jobs_at_first))
        (Move.not_stopped refl)

  -- Thread `n` goes through `w_join` up to its signal.
  to_join :
      Moves malloc n
        (record w0 { lock = some 0 })
        outside
        (record w0 { lock = some 0; stop = true })
        join_signal
  unfolding create
  to_join = more (more (more none_yet Move.call_join) (Move.join_first refl)) Move.set_stop

  first_check : (create malloc n).pc 0 ≡ check
  unfolding create
  first_check = let low : ltb 0 n ≡ true = ground arith in rw low refl

  main_outside : (create malloc n).pc n ≡ outside
  unfolding create
  main_outside = let high : ltb n n ≡ false = ground arith in rw high refl

  Idle-create : (j : ℕ) → Idle ((create malloc n).pc j)
  unfolding create
  Idle-create j = elim (Bool-cases (ltb j n)) [
    | inl e ↦ rw e idle_check
    | inr e ↦ rw e idle_outside
  ]

  -- Thread 0 is about to sleep, and `w_join` is about to signal.
  record AboutToHang (s : System) : Type 0 where
    reach : Reach malloc n s
    pool : s.pool ≡ record w0 { lock = some 0; stop = true }
    sleepy_first : s.pc 0 ≡ sleepy
    signals : s.pc n ≡ join_signal
    others : (j : ℕ) → j ≢ 0 → j ≢ n → Idle (s.pc j)

  about_to_hang : (s : System) × AboutToHang s
  about_to_hang =
      let a = Moves-Ran 0 (create malloc n) start refl first_check to_sleep in
      let b =
        Moves-Ran n a.last a.reach a.pool (a.others n (λ e. ground arith) ∙ main_outside) to_join in
      (
        b.last,
        record {
          reach = b.reach;
          pool = b.pool;
          sleepy_first = b.others 0 (λ e. ground arith) ∙ a.here;
          signals = b.here;
          others = λ j ne ne'. subst Idle (sym (b.others j ne' ∙ a.others j ne)) (Idle-create j);
        },
      )

  not_waiting : {p : Pc} → Idle p → p ≢ waiting
  not_waiting idle_check e = cc
  not_waiting idle_check_stop e = cc
  not_waiting idle_finished e = cc
  not_waiting idle_outside e = cc
  not_waiting idle_join e = cc

  none_waits : (s : System) → AboutToHang s → (j : ℕ) → s.pc j ≢ waiting
  none_waits s a j e = elim (Bool-cases (j == 0)) [
    | inl first ↦
        let at : j ≡ 0 = ground arith in asleep (sym a.sleepy_first ∙ (sym (ap s.pc at) ∙ e))
    | inr other ↦ elim (Bool-cases (j == n)) [
      | inl m ↦ let at : j ≡ n = ground arith in joins (sym a.signals ∙ (sym (ap s.pc at) ∙ e))
      | inr o ↦ not_waiting (a.others j (λ x. ground arith) (λ x. ground arith)) e
    ]
  ]
    where
      asleep : sleepy ≡ waiting → ⊥
      asleep x = cc

      joins : join_signal ≡ waiting → ⊥
      joins x = cc

  -- The signal goes to nobody, and then thread 0 goes to sleep.
  hangs : (s : System) → AboutToHang s → (t : System) × Reach malloc n t × Hung n t
  unfolding create
  hangs s a =
      let sg : Signals (s.pc n) (joining 0) = rw a.signals join_signals in
      let pc1 = update s.pc n (joining 0) in
      let t1 : System = record { pool = s.pool; pc = pc1 } in
      let r1 = later a.reach (signal_none n sg (none_waits s a)) in
      let w2 : Workers = record w0 { lock = none; stop = true } in
      let still : pc1 0 ≡ sleepy =
        update_ne s.pc n 0 (joining 0) (λ e. omega arith) ∙ a.sleepy_first in
      let mv : Move malloc 0 s.pool (pc1 0) w2 waiting = rw (a.pool, still) Move.wait in
      let pc2 = update pc1 0 waiting in
      (
        record { pool = w2; pc = pc2 },
        later r1 (move 0 mv),
        record {
          stop = refl;
          no_jobs = no_jobs_at_first;
          sleeps = refl;
          joins = update_ne pc1 0 n waiting (λ e. omega arith) ∙ update_self s.pc n (joining 0);
          some_threads = some_thread;
          others = λ j ne ne'.
              subst Idle (sym (update_ne pc1 0 j waiting ne ∙ update_ne s.pc n j (joining 0) ne'))
                (a.others j ne ne');
        },
      )

  -- If `malloc` gives 64 bytes, then for every pool with a thread there is a reachable state, with
  -- no job left, in which `w_join` has set the flag and signalled and waits for thread 0, which is
  -- asleep in pthread_cond_wait; and it is so after any number of further steps, unless a `w_post`
  -- is begun or pthread_cond_wait returns without a signal.
  pub join_hangs :
      (s : System) × Reach malloc n s
      × (s.pool.stop ≡ true)
      × (Queue.is_empty s.pool.jobs ≡ true)
      × ((t : System) → Quietly malloc s t → (t.pc 0 ≡ waiting) × (t.pc n ≡ joining 0))
  join_hangs =
      let (s, a) = about_to_hang in
      let (t, r, h) = hangs s a in
      (t, r, h.stop, h.no_jobs, λ u q. let h' = Quietly-Hung h q in (h'.sleeps, h'.joins))
