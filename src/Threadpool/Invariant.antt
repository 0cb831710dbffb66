-- ===== src/Threadpool/Invariant.antt =====
-- What holds of the lock, of the threads' knowledge and of the queue in every state.
use c10k.Base.{
  ℕ, ◌+◌, ◌≡◌, ◌≢◌, ap, ◌∙◌, refl, sym, subst, ◌⊎◌, inl, inr, Bool, true, false, some, List, [],
  ◌∷◌, ◌++◌, ltb, ◌==◌, if◌then◌else◌, Bool-cases, arith,
}
use mathlib.Core.List.{append_assoc}
use c10k.Base.Mutex.{Locks, keeps, acquires, releases, Flags, Locks-Flags}
use c10k.Threadpool.{
  Threadpool, System, Pc, empty, outside, check, wait_test, wait_stop, sleepy, waiting, woken,
  skip_test, skip_stop, leaving, leaving_notify, reading, popping, unlocking, finished, undefined,
  pushing, post_notify, post_unlock, join_notify, joining, update, Move, finish, lock, relock,
  lock_post, wait, leave, unlock, unlock_post, none_yet, stopped, not_stopped, job_appears, pluck,
  maybe_skip, skip, no_skip, front, front_empty, pop_empty, pop, push, set_stop, Notifies,
  leaving_notifies, worker_notifies, post_notifies, join_notifies, Step, move, notify_one,
  notify_none, join_one, wake, create, Reach, start, later,
}

-- Between a lock and the next unlock or wait.
abbrev pub holds : Pc → Bool
holds wait_test = true
holds wait_stop = true
holds sleepy = true
holds skip_test = true
holds skip_stop = true
holds leaving = true
holds reading = true
holds (popping _) = true
holds (unlocking _) = true
holds undefined = true
holds (pushing _) = true
holds post_notify = true
holds post_unlock = true
holds _ = false

-- What a thread has seen and still holds.
abbrev pub Known : Threadpool → Pc → Type 0
Known w wait_stop = empty w.jobs ≡ true
Known w sleepy = empty w.jobs ≡ true
Known w skip_test = empty w.jobs ≡ true → w.stop ≡ true
Known w skip_stop = w.stop ≡ true
Known w leaving = w.stop ≡ true
Known w leaving_notify = w.stop ≡ true
Known w finished = w.stop ≡ true
Known w reading = empty w.jobs ≡ false
Known w (popping f) = (rest : List ℕ) × (w.jobs ≡ f ∷ rest)
Known w undefined = ⊥
Known w join_notify = w.stop ≡ true
Known w (joining _) = w.stop ≡ true
Known w _ = Unit

pub record Inv (s : System) : Type 0 where
  pub owner : Flags s.pool.jobs_lock (λ j. holds (s.pc j))
  pub known : (i : ℕ) → Known s.pool (s.pc i)
  pub order : s.pool.posted ≡ s.pool.taken ++ s.pool.jobs

Move-Locks :
    {i : ℕ} {w w' : Threadpool} {p p' : Pc}
    → Move i w p w' p'
    → Locks i w.jobs_lock (holds p) w'.jobs_lock (holds p')
Move-Locks (lock g) = acquires g
Move-Locks (relock g) = acquires g
Move-Locks (lock_post g) = acquires g
Move-Locks wait = releases
Move-Locks leave = releases
Move-Locks unlock = releases
Move-Locks unlock_post = releases
Move-Locks _ = keeps

-- What a step changes for the other threads: the flag only ever becomes 1, and only the owner of
-- the lock changes the queue.
record Later (w w' : Threadpool) (p : Pc) : Type 0 where
  stops : w.stop ≡ true → w'.stop ≡ true
  jobs : (w'.jobs ≡ w.jobs) ⊎ (holds p ≡ true)

Move-Later : {i : ℕ} {w w' : Threadpool} {p p' : Pc} → Move i w p w' p' → Later w w' p
Move-Later (pop g) = record { stops = λ e. e; jobs = inr refl }
Move-Later push = record { stops = λ e. e; jobs = inr refl }
Move-Later set_stop = record { stops = λ e. refl; jobs = inl refl }
Move-Later _ = record { stops = λ e. e; jobs = inl refl }

Known-later :
    (w w' : Threadpool)
    → (w.stop ≡ true → w'.stop ≡ true)
    → (p : Pc) → (holds p ≡ true → w'.jobs ≡ w.jobs)
    → Known w p
    → Known w' p
Known-later w w' stops wait_stop jobs k = rw (jobs refl) k
Known-later w w' stops sleepy jobs k = rw (jobs refl) k
Known-later w w' stops skip_test jobs k = λ e. stops (k (rw (jobs refl) at e))
Known-later w w' stops skip_stop jobs k = stops k
Known-later w w' stops leaving jobs k = stops k
Known-later w w' stops leaving_notify jobs k = stops k
Known-later w w' stops finished jobs k = stops k
Known-later w w' stops reading jobs k = rw (jobs refl) k
Known-later w w' stops (popping f) jobs k = (k.0, jobs refl ∙ k.1)
Known-later w w' stops undefined jobs k = k
Known-later w w' stops join_notify jobs k = stops k
Known-later w w' stops (joining _) jobs k = stops k
Known-later w w' stops _ jobs k = tt

Move-Known : {i : ℕ} {w w' : Threadpool} {p p' : Pc} → Move i w p w' p' → Known w p → Known w' p'
Move-Known (finish g) k = g
Move-Known (none_yet g) k = g
Move-Known (stopped g) k = λ _. g
Move-Known (not_stopped g) k = k
Move-Known (job_appears g) k = λ e. cc
Move-Known (pluck g) k = g
Move-Known (maybe_skip g) k = k g
Move-Known (skip g) k = g
Move-Known (no_skip g) k = cc
Move-Known leave k = k
Move-Known (front {rest = rest} g) k = (rest, g)
Move-Known (front_empty g) k = cc (rw g at k)
Move-Known (pop_empty g) (rest, e) = cc
Move-Known set_stop k = refl
Move-Known _ k = tt

Notifies-Known : (w : Threadpool) {p p' : Pc} → Notifies p p' → Known w p → Known w p'
Notifies-Known w leaving_notifies k = k
Notifies-Known w worker_notifies k = tt
Notifies-Known w post_notifies k = tt
Notifies-Known w join_notifies k = k

-- Only `pop` and `push` change the queue and the history; `pop` takes what `front` read.
Move-order :
    {i : ℕ} {w w' : Threadpool} {p p' : Pc}
    → Move i w p w' p'
    → Known w p
    → w.posted ≡ w.taken ++ w.jobs
    → w'.posted ≡ w'.taken ++ w'.jobs
Move-order {w = w} (pop {f} {first} {rest} g) (rest', e) o =
    let same : w.jobs ≡ f ∷ rest = cc in
    o ∙ ap (λ l. w.taken ++ l) same ∙ sym (append_assoc w.taken (f ∷ []) rest)
Move-order {w = w} (push {f}) k o = rw o (append_assoc w.taken w.jobs (f ∷ []))
Move-order _ k o = o

some-eq : {i j : ℕ} → some i ≡ some j → i ≡ j
some-eq e = ground arith

holds-update :
    (pc : ℕ → Pc) (i : ℕ) (p : Pc) (j : ℕ)
    → holds (update pc i p j) ≡ (if i == j then holds p else holds (pc j))
holds-update pc i p j = elim (Bool-cases (i == j)) [ inl e ↦ rw e | inr e ↦ rw e ]

-- Thread `i` goes from `pc i` to `p'`, and the pool from `w` to `w'`.
module _ {w w' : Threadpool} {pc : ℕ → Pc} (i : ℕ) (p' : Pc)
    (locks : Locks i w.jobs_lock (holds (pc i)) w'.jobs_lock (holds p')) (later : Later w w' (pc i))
    (here : Known w' p') (order : w'.posted ≡ w'.taken ++ w'.jobs)
    (v : Inv (record { pool = w; pc = pc })) where
  owner_after : Flags w'.jobs_lock (λ j. holds (update pc i p' j))
  owner_after =
      let f =
        Locks-Flags i w.jobs_lock w'.jobs_lock (holds (pc i)) (holds p') (λ j. holds (pc j)) locks
          refl v.owner in
      record {
        own = λ j q. f.own j (sym (holds-update pc i p' j) ∙ q);
        owned = λ j q. holds-update pc i p' j ∙ f.owned j q;
      }

  Known-after : (j : ℕ) → Known w' (update pc i p' j)
  Known-after j = elim (Bool-cases (i == j)) [
    | inl e ↦ rw e here
    | inr e ↦ rw e (Known-later w w' later.stops (pc j) (same (ground arith)) (v.known j))
  ]
    where
      same : i ≢ j → holds (pc j) ≡ true → w'.jobs ≡ w.jobs
      same ne h = elim later.jobs [
        | inl e ↦ e
        | inr h' ↦ absurd (ne (some-eq (sym (v.owner.own i h') ∙ v.owner.own j h)))
      ]

  Inv-after : Inv (record { pool = w'; pc = update pc i p' })
  Inv-after = record { owner = owner_after; known = Known-after; order = order }

-- A step that leaves the pool alone.
quiet-Inv :
    {w : Threadpool} {pc : ℕ → Pc} (i : ℕ) (p' : Pc)
    → holds (pc i) ≡ holds p'
    → Known w p'
    → Inv (record { pool = w; pc = pc })
    → Inv (record { pool = w; pc = update pc i p' })
quiet-Inv {w} {pc} i p' same k v =
    Inv-after i p' (rw same keeps) (record { stops = λ e. e; jobs = inl refl }) k v.order v

Notifies-holds : {p p' : Pc} → Notifies p p' → holds p ≡ holds p'
Notifies-holds leaving_notifies = refl
Notifies-holds worker_notifies = refl
Notifies-holds post_notifies = refl
Notifies-holds join_notifies = refl

Notifies-ne-waiting : {p p' : Pc} → Notifies p p' → p ≢ waiting
Notifies-ne-waiting leaving_notifies e = cc
Notifies-ne-waiting worker_notifies e = cc
Notifies-ne-waiting post_notifies e = cc
Notifies-ne-waiting join_notifies e = cc

-- The thread that is woken is not the one that notifies.
still_waiting :
    (pc : ℕ → Pc) (i j : ℕ) {p : Pc}
    → Notifies (pc i) p
    → pc j ≡ waiting
    → update pc i p j ≡ waiting
still_waiting pc i j n e = elim (Bool-cases (i == j)) [
  | inl at ↦ let same : i ≡ j = ground arith in absurd (Notifies-ne-waiting n (ap pc same ∙ e))
  | inr other ↦ rw other e
]

notify-Inv :
    {w : Threadpool} {pc : ℕ → Pc} (i : ℕ) {p' : Pc}
    → Notifies (pc i) p'
    → Inv (record { pool = w; pc = pc })
    → Inv (record { pool = w; pc = update pc i p' })
notify-Inv {w} i {p'} n v = quiet-Inv i p' (Notifies-holds n) (Notifies-Known w n (v.known i)) v

wake-Inv :
    {w : Threadpool} {pc : ℕ → Pc} (j : ℕ)
    → pc j ≡ waiting
    → Inv (record { pool = w; pc = pc })
    → Inv (record { pool = w; pc = update pc j woken })
wake-Inv j e v = quiet-Inv j woken (rw e refl) tt v

Step-Inv : {s t : System} → Step s t → Inv s → Inv t
Step-Inv {s} (move i {w} {p} mv) v =
    Inv-after i p (Move-Locks mv) (Move-Later mv) (Move-Known mv (v.known i))
      (Move-order mv (v.known i) v.order) v
Step-Inv {s} (notify_one i j n e) v = wake-Inv j (still_waiting s.pc i j n e) (notify-Inv i n v)
Step-Inv (notify_none i n none_waits) v = notify-Inv i n v
Step-Inv {s} (join_one i k e lt fin) v =
    quiet-Inv i (joining (k + 1)) (rw e refl) (subst (Known s.pool) e (v.known i)) v
Step-Inv (wake j e) v = wake-Inv j e v

create-Inv : (n : ℕ) → Inv (create n)
unfolding create
create-Inv n = record {
  owner = record { own = λ i h. absurd (not_held i h); owned = λ i e. cc };
  known = λ i. elim (Bool-cases (ltb i n)) [ inl e ↦ rw e tt | inr e ↦ rw e tt ];
  order = refl;
}
  where
    not_held : (i : ℕ) → holds (if ltb i n then check else outside) ≡ true → ⊥
    not_held i h = elim (Bool-cases (ltb i n)) [ inl e ↦ cc (rw e at h) | inr e ↦ cc (rw e at h) ]

pub Reach-Inv : {n : ℕ} {s : System} → Reach n s → Inv s
Reach-Inv {n} start = create-Inv n
Reach-Inv (later r st) = Step-Inv st (Reach-Inv r)
