-- ===== src/Workers/Progress/Awake.antt =====
-- Which threads are awake, and what a move does to that.
use c10k.Base.{ℕ, ◌≡◌, ◌≢◌, refl, Bool, true, false}
use c10k.Base.Memory.{Malloc}
use c10k.Queue
use c10k.Queue.{Queue}
use c10k.Workers.{
  Workers, Pc, outside, finished, waiting, joining, post_lock, push_fn, push_args, post_unlock,
  post_signal, join_test, join_set, join_signal, Move, Signals, leaving_signals, worker_signals,
  post_signals, join_signals,
}
use c10k.Workers.Invariant.{Known}

-- In w_process or `w_post`, not asleep and not ended.
abbrev pub awake : Pc → Bool
awake outside = false
awake waiting = false
awake finished = false
awake join_test = false
awake join_set = false
awake join_signal = false
awake (joining _) = false
awake _ = true

-- In w_process, asleep and ended too.
abbrev pub member : Pc → Bool
member outside = false
member (post_lock _ _) = false
member (push_fn _ _) = false
member (push_args _ _) = false
member post_unlock = false
member post_signal = false
member join_test = false
member join_set = false
member join_signal = false
member (joining _) = false
member _ = true

pub member-awake : (p : Pc) → member p ≡ true → p ≢ waiting → p ≢ finished → awake p ≡ true
member-awake outside m a b = cc
member-awake waiting m a b = absurd (a refl)
member-awake finished m a b = absurd (b refl)
member-awake join_test m a b = cc
member-awake join_set m a b = cc
member-awake join_signal m a b = cc
member-awake (joining _) m a b = cc
member-awake _ m a b = refl

pub Move-member :
    {malloc : Malloc} {i : ℕ} {w w' : Workers} {p p' : Pc}
    → Move malloc i w p w' p'
    → member p ≡ true
    → member p' ≡ true
Move-member (Move.has_job g) m = refl
Move-member (Move.lock_post g) m = cc
Move-member (Move.push_first g) m = cc
Move-member (Move.push_second g) m = cc
Move-member Move.unlock_post m = cc
Move-member Move.call_join m = cc
Move-member (Move.join_again g) m = cc
Move-member (Move.join_first g) m = cc
Move-member Move.set_stop m = cc
Move-member (Move.join_end g) m = cc
Move-member _ m = refl

pub Signals-member : {p p' : Pc} → Signals p p' → member p ≡ true → member p' ≡ true
Signals-member leaving_signals m = refl
Signals-member worker_signals m = refl
Signals-member post_signals m = cc
Signals-member join_signals m = cc

-- There is work to do, and no order to stop.
abbrev pub Busy : Workers → Type 0
Busy w = (w.stop ≡ false) × (Queue.is_empty w.jobs ≡ false)

-- What a move does to being awake.
pub data Awakens (w w' : Workers) (p p' : Pc) : Type 0 where
  up : awake p' ≡ true → Awakens w w' p p'
  idle : (Busy w' → ⊥) → Awakens w w' p p'
  aside : awake p ≡ false → (Busy w' → Busy w) → Awakens w w' p p'

pub Move-Awakens :
    {malloc : Malloc} {i : ℕ} {w w' : Workers} {p p' : Pc}
    → Move malloc i w p w' p'
    → Known w p
    → Awakens w w' p p'
Move-Awakens (Move.finish g) k = idle (λ b. cc)
Move-Awakens Move.wait k = idle (λ b. cc)
Move-Awakens Move.call_join k = aside refl (λ b. b)
Move-Awakens (Move.join_again g) k = aside refl (λ b. b)
Move-Awakens (Move.join_first g) k = aside refl (λ b. b)
Move-Awakens Move.set_stop k = idle (λ b. cc)
Move-Awakens (Move.join_end g) k = aside refl (λ b. b)
Move-Awakens _ k = up refl
