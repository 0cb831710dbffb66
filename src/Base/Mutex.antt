-- ===== src/Base/Mutex.antt =====
-- A mutex and the flags of the threads that stand between a lock and the next unlock.
use Prim.Native.Nat.{ℕ}
use mathlib.Core.Path.{◌≡◌}
use mathlib.Core.Bool.{Bool, true, false}
use mathlib.Core.Option.{Option, none, some}
use native.Mathlib.Omega.{arith}
use package.c10k.Base.Tests.{◌==◌, if◌then◌else◌}

-- What a step does to the lock, with what its thread holds before and after.
pub data Locks (i : ℕ)
    : (before : Option ℕ) (held : Bool) (after : Option ℕ) (holds' : Bool) → Type 0 where
  keeps : {l : Option ℕ} {h : Bool} → Locks i l h l h
  acquires : {l : Option ℕ} → l ≡ none → Locks i l false (some i) true
  releases : {l : Option ℕ} → Locks i l true none false

-- `held j` is whether thread `j` holds the lock.
pub record Flags (l : Option ℕ) (held : ℕ → Bool) : Type 0 where
  pub own : (j : ℕ) → held j ≡ true → l ≡ some j
  pub owned : (j : ℕ) → l ≡ some j → held j ≡ true

pub Locks-Flags :
    (i : ℕ) (l l' : Option ℕ) (h h' : Bool) (held : ℕ → Bool)
    → Locks i l h l' h'
    → held i ≡ h
    → Flags l held
    → Flags l' (λ j. if i == j then h' else held j)
Locks-Flags i l l' h h' held keeps e f = record {
  own = λ j q. ground (arith, f.own i, f.own j);
  owned = λ j q. ground (arith, f.owned j);
}
Locks-Flags i l l' h h' held (acquires free) e f = record {
  own = λ j q. ground (arith, f.own j);
  owned = λ j q. ground (arith, f.owned j);
}
Locks-Flags i l l' h h' held releases e f = record {
  own = λ j q. ground (arith, f.own i, f.own j);
  owned = λ j q. cc;
}
