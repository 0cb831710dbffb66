-- ===== src/Workers/Hang/Stuck.antt =====
-- A pool that has lost the wake-up of `w_join`: no step of its threads gets it out of there.
use c10k.Base.{ℕ, ◌<◌, ◌≡◌, ◌≢◌, refl, ap, sym, ◌∙◌, inl, inr, true, false, arith, ◌==◌, Bool-cases}
use c10k.Base.Memory.{Malloc}
use c10k.Queue
use c10k.Workers.{
  Workers, System, Pc, check, check_stop, waiting, outside, finished, join_test, joining, update,
  Move, Signals, act, Step, move, signal_one, signal_none, join_one,
}

-- A thread that can do nothing for the one that sleeps: it has ended, sees that the flag is set, or
-- is outside the pool.
pub data Idle : Pc → Type 0 where
  idle_check : Idle check
  idle_check_stop : Idle check_stop
  idle_finished : Idle finished
  idle_outside : Idle outside
  idle_join : Idle join_test

-- Thread 0 sleeps, `main` waits for it to end, and nobody is left to wake it.
pub record Hung (main : ℕ) (s : System) : Type 0 where
  pub stop : s.pool.stop ≡ true
  pub no_jobs : Queue.is_empty s.pool.jobs ≡ true
  pub sleeps : s.pc 0 ≡ waiting
  pub joins : s.pc main ≡ joining 0
  pub some_threads : 0 < s.pool.num_threads
  pub others : (i : ℕ) → i ≢ 0 → i ≢ main → Idle (s.pc i)

-- Any number of steps other than the start of a `w_post` and a wake-up that no signal has caused.
pub data Quietly (malloc : Malloc) (s : System) : System → Type 0 where
  here : Quietly malloc s s
  then_act : {t u : System} → Quietly malloc s t → Step malloc t act u → Quietly malloc s u

record Idles (w w' : Workers) (p' : Pc) : Type 0 where
  same : w' ≡ w
  still : Idle p'

Move-Idle :
    {malloc : Malloc} {i : ℕ} {w w' : Workers} {p p' : Pc}
    → Idle p
    → w.stop ≡ true
    → Queue.is_empty w.jobs ≡ true
    → Move malloc i w p w' p'
    → Idles w w' p'
Move-Idle idle_check e f (Move.has_job g) = cc
Move-Idle idle_check e f (Move.no_job g) = record { same = refl; still = idle_check_stop }
Move-Idle idle_check_stop e f (Move.go_on g) = cc
Move-Idle idle_check_stop e f (Move.finish g) = record { same = refl; still = idle_finished }
Move-Idle idle_finished e f mv = elim mv [ ]
Move-Idle idle_outside e f Move.call_join = record { same = refl; still = idle_join }
Move-Idle idle_join e f (Move.join_again g) = record { same = refl; still = idle_outside }
Move-Idle idle_join e f (Move.join_first g) = cc

Move-ne-waiting :
    {malloc : Malloc} {i : ℕ} {w w' : Workers} {p p' : Pc} → Move malloc i w p w' p' → p ≢ waiting
Move-ne-waiting (Move.finish g) e = cc
Move-ne-waiting _ e = cc

Move-joining :
    {malloc : Malloc} {i : ℕ} {w w' : Workers} {p p' : Pc}
    → Move malloc i w p w' p'
    → (k : ℕ) → p ≡ joining k
    → k ≡ w.num_threads
Move-joining (Move.join_end g) k e = ground arith
Move-joining (Move.finish g) k e = cc
Move-joining _ k e = cc

-- No thread of a hung system signals.
not-Signals : {main : ℕ} {s : System} → Hung main s → (i : ℕ) {p : Pc} → Signals (s.pc i) p → ⊥
not-Signals {main} {s} h i sg = elim (Bool-cases (i == 0)) [
  | inl first ↦ let at : i ≡ 0 = ground arith in silent_waiting sg (ap s.pc at ∙ h.sleeps)
  | inr other ↦ elim (Bool-cases (i == main)) [
    | inl m ↦ let at : i ≡ main = ground arith in silent_joining sg (ap s.pc at ∙ h.joins)
    | inr o ↦ silent_idle sg (h.others i (λ e. ground arith) (λ e. ground arith))
  ]
]
  where
    silent_waiting : {p p' : Pc} → Signals p p' → p ≡ waiting → ⊥
    silent_waiting Signals.leaving_signals e = cc
    silent_waiting Signals.worker_signals e = cc
    silent_waiting Signals.post_signals e = cc
    silent_waiting Signals.join_signals e = cc

    silent_joining : {p p' : Pc} → Signals p p' → p ≡ joining 0 → ⊥
    silent_joining Signals.leaving_signals e = cc
    silent_joining Signals.worker_signals e = cc
    silent_joining Signals.post_signals e = cc
    silent_joining Signals.join_signals e = cc

    silent_idle : {p p' : Pc} → Signals p p' → Idle p → ⊥
    silent_idle Signals.leaving_signals k = elim k [ ]
    silent_idle Signals.worker_signals k = elim k [ ]
    silent_idle Signals.post_signals k = elim k [ ]
    silent_idle Signals.join_signals k = elim k [ ]

-- A step of an idle thread leaves the system hung.
Idle-Hung :
    {main : ℕ} {s : System} (i : ℕ) (p : Pc)
    → Hung main s
    → i ≢ 0
    → i ≢ main
    → Idle p
    → Hung main (record { pool = s.pool; pc = update s.pc i p })
Idle-Hung {main} {s} i p h ne ne' k = record {
  stop = h.stop;
  no_jobs = h.no_jobs;
  sleeps = let miss : (i == 0) ≡ false = ground arith in rw miss h.sleeps;
  joins = let miss : (i == main) ≡ false = ground arith in rw miss h.joins;
  some_threads = h.some_threads;
  others = λ j a b. elim (Bool-cases (i == j)) [ inl e ↦ rw e k | inr e ↦ rw e (h.others j a b) ];
}

-- A hung system stays hung.
Step-Hung :
    {malloc : Malloc} {main : ℕ} {s t : System} → Hung main s → Step malloc s act t → Hung main t
Step-Hung {malloc} {main} {s} h (move i {w} {p} mv) = elim (Bool-cases (i == 0)) [
  | inl first ↦ let at : i ≡ 0 = ground arith in absurd (Move-ne-waiting mv (ap s.pc at ∙ h.sleeps))
  | inr other ↦ elim (Bool-cases (i == main)) [
    | inl m ↦
        let at : i ≡ main = ground arith in
        let empty = Move-joining mv 0 (ap s.pc at ∙ h.joins) in
        absurd (omega (arith, h.some_threads))
    | inr o ↦
        let ne : i ≢ 0 = λ e. ground arith in
        let ne' : i ≢ main = λ e. ground arith in
        let k = Move-Idle (h.others i ne ne') h.stop h.no_jobs mv in
        rw k.same (Idle-Hung i p h ne ne' k.still)
  ]
]
Step-Hung h (signal_one i j sg e) = absurd (not-Signals h i sg)
Step-Hung h (signal_none i sg none_waits) = absurd (not-Signals h i sg)
Step-Hung {malloc} {main} {s} h (join_one i k e lt fin) = absurd (elim (Bool-cases (i == 0)) [
  | inl first ↦ let at : i ≡ 0 = ground arith in asleep (sym (ap s.pc at ∙ h.sleeps) ∙ e)
  | inr other ↦ elim (Bool-cases (i == main)) [
    | inl m ↦
        let at : i ≡ main = ground arith in
        let zeroth = joining-eq (sym e ∙ (ap s.pc at ∙ h.joins)) in
        awake (sym h.sleeps ∙ (ap s.pc (sym zeroth) ∙ fin))
    | inr o ↦ busy (h.others i (λ x. ground arith) (λ x. ground arith)) e
  ]
])
  where
    asleep : waiting ≡ joining k → ⊥
    asleep x = cc

    awake : waiting ≡ finished → ⊥
    awake x = cc

    joining-eq : {a b : ℕ} → joining a ≡ joining b → a ≡ b
    joining-eq x = ground arith

    busy : {p : Pc} → Idle p → p ≡ joining k → ⊥
    busy idle_check x = cc
    busy idle_check_stop x = cc
    busy idle_finished x = cc
    busy idle_outside x = cc
    busy idle_join x = cc

pub Quietly-Hung :
    {malloc : Malloc} {main : ℕ} {s t : System} → Hung main s → Quietly malloc s t → Hung main t
Quietly-Hung h here = h
Quietly-Hung h (then_act q st) = Step-Hung (Quietly-Hung h q) st
