-- ===== src/Workers/Invariant.antt =====
-- What holds in every state that the pool can reach.
mod Defs
mod Lock
mod Knowledge
mod Jobs
pub use Defs.*
pub use Knowledge.{Later, Move-Later}
use Lock.{Move-Locks, Locks-Owns}
use Knowledge.{Known-update, Known-later, Move-Known, Signals-Known}
use Jobs.{Effect, idle, Move-Effect, Ledger-update}
use c10k.Base.{
  ℕ, ◌+◌, ◌^◌, ◌<◌, ◌≡◌, ◌≢◌, ap, ◌∙◌, refl, sym, subst, inl, Bool, true, false, none, some, List,
  [], ltb, ◌==◌, if◌then◌else◌, Bool-cases, inr, arith,
}
use c10k.Base.Memory.{Malloc, Gives}
use c10k.Base.Mutex.{Locks, keeps}
use c10k.Queue.Represents.{create-Represents}
use c10k.Workers.{
  Workers, System, Pc, check, outside, woken, waiting, joining, post_lock, update, Move, Signals,
  leaving_signals, worker_signals, post_signals, join_signals, Event, Step, move, signal_one,
  signal_none, join_one, call_post, wake, create, Reach, start, later,
}

-- A step of one thread that leaves the pool alone.
quiet-Inv :
    {w : Workers} {pc : ℕ → Pc} (i : ℕ) (p' : Pc)
    → holds (pc i) ≡ false
    → holds p' ≡ false
    → part (pc i) ≡ whole
    → part p' ≡ whole
    → Known w p'
    → Inv (record { pool = w; pc = pc })
    → Inv (record { pool = w; pc = update pc i p' })
quiet-Inv {w} {pc} i p' h h' e e' k v = record {
  owner = Locks-Owns p' locks v.owner;
  known =
      Known-update w w pc i p' v.owner (record { stops = λ s. s; jobs = inl refl; size = refl })
        v.known k;
  ledger = Ledger-update pc p' (idle refl refl refl e e') locks v.owner v.ledger;
}
  where
    locks : Locks i w.lock (holds (pc i)) w.lock (holds p')
    locks = rw (h, h') keeps

record Quiet (p p' : Pc) : Type 0 where
  before : holds p ≡ false
  after : holds p' ≡ false
  part_before : part p ≡ whole
  part_after : part p' ≡ whole

Signals-Quiet : {p p' : Pc} → Signals p p' → Quiet p p'
Signals-Quiet leaving_signals = record {
  before = refl;
  after = refl;
  part_before = refl;
  part_after = refl;
}
Signals-Quiet worker_signals = record {
  before = refl;
  after = refl;
  part_before = refl;
  part_after = refl;
}
Signals-Quiet post_signals = record {
  before = refl;
  after = refl;
  part_before = refl;
  part_after = refl;
}
Signals-Quiet join_signals = record {
  before = refl;
  after = refl;
  part_before = refl;
  part_after = refl;
}

signal-Inv :
    {w : Workers} {pc : ℕ → Pc} (i : ℕ) {p' : Pc}
    → Signals (pc i) p'
    → Inv (record { pool = w; pc = pc })
    → Inv (record { pool = w; pc = update pc i p' })
signal-Inv {w} i {p'} sg v =
    let q = Signals-Quiet sg in
    quiet-Inv i p' q.before q.after q.part_before q.part_after (Signals-Known w sg (v.known i)) v

Signals-ne-waiting : {p p' : Pc} → Signals p p' → p ≢ waiting
Signals-ne-waiting leaving_signals e = cc
Signals-ne-waiting worker_signals e = cc
Signals-ne-waiting post_signals e = cc
Signals-ne-waiting join_signals e = cc

-- The thread that is woken is not the one that signals.
pub still_waiting :
    (pc : ℕ → Pc) (i j : ℕ) {p : Pc} → Signals (pc i) p → pc j ≡ waiting → update pc i p j ≡ waiting
still_waiting pc i j sg e = elim (Bool-cases (i == j)) [
  | inl at ↦ let same : i ≡ j = ground arith in absurd (Signals-ne-waiting sg (ap pc same ∙ e))
  | inr other ↦ rw other e
]

wake-Inv :
    {w : Workers} {pc : ℕ → Pc} (j : ℕ)
    → pc j ≡ waiting
    → Inv (record { pool = w; pc = pc })
    → Inv (record { pool = w; pc = update pc j woken })
wake-Inv j e v = quiet-Inv j woken (rw e refl) refl (rw e refl) refl tt v

pub Step-Inv :
    {malloc : Malloc} {s t : System} {e : Event}
    → Gives malloc (2 ^ 33)
    → Step malloc s e t
    → Inv s
    → Inv t
Step-Inv {s} gives (move i {w} {p} mv) v = record {
  owner = Locks-Owns p (Move-Locks mv) v.owner;
  known =
      Known-update s.pool w s.pc i p v.owner (Move-Later mv) v.known (Move-Known mv (v.known i));
  ledger = Ledger-update s.pc p (Move-Effect gives mv (v.known i)) (Move-Locks mv) v.owner v.ledger;
}
Step-Inv {s} gives (signal_one i j {p} sg e) v =
    wake-Inv j (still_waiting s.pc i j sg e) (signal-Inv i sg v)
Step-Inv gives (signal_none i sg none_waits) v = signal-Inv i sg v
Step-Inv {s} gives (join_one i k e lt fin) v =
    quiet-Inv i (joining (k + 1)) (rw e refl) refl (rw e refl) refl
      (subst (Known s.pool) e (v.known i)) v
Step-Inv gives (call_post i fn args e) v =
    quiet-Inv i (post_lock fn args) (rw e refl) refl (rw e refl) refl tt v
Step-Inv gives (wake j e) v = wake-Inv j e v

create-Inv : (malloc : Malloc) (n : ℕ) → Gives malloc (2 ^ 33) → Inv (create malloc n)
unfolding create
create-Inv malloc n gives = record {
  owner = record { own = λ i h. absurd (not_held i h); owned = λ i e. absurd (none_owns i e) };
  known = λ i. elim (Bool-cases (ltb i n)) [ inl e ↦ rw e tt | inr e ↦ rw e tt ];
  ledger = record {
    queued = [];
    order = refl;
    content = create-Represents malloc (λ m le. gives m (omega arith));
  };
}
  where
    not_held : (i : ℕ) → holds (if ltb i n then check else outside) ≡ true → ⊥
    not_held i h = elim (Bool-cases (ltb i n)) [ inl e ↦ cc (rw e at h) | inr e ↦ cc (rw e at h) ]

    none_owns : (i : ℕ) → none ≡ some i → ⊥
    none_owns i e = cc

pub Reach-Inv :
    {malloc : Malloc} {n : ℕ} {s : System} → Gives malloc (2 ^ 33) → Reach malloc n s → Inv s
Reach-Inv {malloc} {n} gives start = create-Inv malloc n gives
Reach-Inv gives (later r st) = Step-Inv gives st (Reach-Inv gives r)
