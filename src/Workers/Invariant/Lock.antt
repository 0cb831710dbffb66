-- ===== src/Workers/Invariant/Lock.antt =====
-- A move keeps the lock with the thread that stands between a lock and an unlock.
use c10k.Base.{ℕ, ◌≡◌, refl, sym, ◌∙◌, Option, ◌==◌, if◌then◌else◌, Bool-cases, inl, inr}
use c10k.Workers.{
  Workers, Pc, update, Move, lock, relock, lock_post, wait, leave, unlock, unlock_post,
}
use c10k.Base.Memory.{Malloc}
use c10k.Base.Mutex.{Locks, keeps, acquires, releases, Flags, Locks-Flags}
use c10k.Workers.Invariant.Defs.{holds, Owns}

pub Move-Locks :
    {malloc : Malloc} {i : ℕ} {w w' : Workers} {p p' : Pc}
    → Move malloc i w p w' p'
    → Locks i w.lock (holds p) w'.lock (holds p')
Move-Locks (lock g) = acquires g
Move-Locks (relock g) = acquires g
Move-Locks (lock_post g) = acquires g
Move-Locks wait = releases
Move-Locks leave = releases
Move-Locks unlock = releases
Move-Locks unlock_post = releases
Move-Locks _ = keeps

pub holds-update :
    (pc : ℕ → Pc) (i : ℕ) (p : Pc) (j : ℕ)
    → holds (update pc i p j) ≡ (if i == j then holds p else holds (pc j))
holds-update pc i p j = elim (Bool-cases (i == j)) [ inl e ↦ rw e | inr e ↦ rw e ]

pub Locks-Owns :
    {i : ℕ} {l l' : Option ℕ} {pc : ℕ → Pc} (p' : Pc)
    → Locks i l (holds (pc i)) l' (holds p')
    → Owns l pc
    → Owns l' (update pc i p')
Locks-Owns {i} {l} {l'} {pc} p' locks o = record {
  own = λ j q. f.own j (sym (holds-update pc i p' j) ∙ q);
  owned = λ j q. holds-update pc i p' j ∙ f.owned j q;
}
  where
    f : Flags l' (λ j. if i == j then holds p' else holds (pc j))
    f =
        Locks-Flags i l l' (holds (pc i)) (holds p') (λ j. holds (pc j)) locks refl
          (record { own = o.own; owned = o.owned })
