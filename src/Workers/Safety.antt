-- ===== src/Workers/Safety.antt =====
-- What the pool never does: two threads in the critical section, a job out of order, a job from an
-- empty queue, a return from the join that sets the flag while a thread of the pool still runs.
use c10k.Base.{
  ℕ, ◌+◌, ◌^◌, ◌<◌, ◌≡◌, ◌≢◌, refl, ap, sym, subst, ◌∙◌, ◌⊎◌, Bool, true, false, none, some, List,
  [], ◌∷◌, ◌++◌, arith, ltb, ◌==◌, Bool-cases, inl, inr,
}
use c10k.Base.Memory.{Malloc, Gives}
use c10k.Queue
use c10k.Queue.{Queue}
use c10k.Queue.Represents.{Represents, next-cons, is_empty-Represents}
use c10k.Workers.{
  Job, Workers, System, Pc, finished, woken, waiting, joining, outside, join_test, join_set,
  join_signal, plucking, post_lock, update, Move, Signals, leaving_signals, worker_signals,
  post_signals, join_signals, Event, Step, move, signal_one, signal_none, join_one, call_post, wake,
  create, Reach, start, later,
}
use c10k.Workers.Invariant.{
  holds, Known, whole, part, part_of, flat, Content, Reach-Inv, still_waiting,
}

-- The oldest job of a queue of whole jobs that is not empty.
pub oldest :
    (w : Workers) (queued : List Job)
    → Queue.is_empty w.jobs ≡ false
    → w.posted ≡ w.taken ++ queued
    → Represents w.jobs (flat queued)
    → (fn args : ℕ) × (rest : List Job) × (q q' : Queue) × (w.posted ≡ w.taken ++ (fn, args) ∷ rest)
      × (Queue.next w.jobs ≡ some (fn, q))
      × (Queue.next q ≡ some (args, q'))
      × Represents q' (flat rest)
oldest w [] full o r = let empty = (is_empty-Represents [] r).1 refl in absurd (cc)
oldest w ((fn, args) ∷ rest) full o r =
    let (q, first, r1, _) = next-cons r in
    let (q', second, r2, _) = next-cons r1 in (fn, args, rest, q, q', o, first, second, r2)

module _ {malloc : Malloc} {n : ℕ} {s : System} (gives : Gives malloc (2 ^ 33))
    (r : Reach malloc n s) where
  -- In every state that a pool with memory can reach, no two threads stand between a lock of the
  -- mutex and the next unlock or wait.
  pub mutual_exclusion : (i j : ℕ) → holds (s.pc i) ≡ true → holds (s.pc j) ≡ true → i ≡ j
  mutual_exclusion i j a b =
      let o = (Reach-Inv gives r).owner in
      let same : some i ≡ some j = sym (o.own i a) ∙ o.own j b in ground arith

  -- In every state that a pool with memory can reach, the jobs taken are the first of the jobs
  -- posted, in the order of posting, each once; and while nobody holds the lock the queue holds
  -- exactly the others, in order, each as its function and then its argument.
  pub taken_in_order :
      (queued : List Job) × (s.pool.posted ≡ s.pool.taken ++ queued)
      × (s.pool.lock ≡ none → Represents s.pool.jobs (flat queued))
  taken_in_order =
      let l = (Reach-Inv gives r).ledger in
      (
        l.queued,
        l.order,
        λ free. subst (λ o. Content s.pool.jobs (part_of o s.pc) l.queued) free l.content,
      )

  -- In every state that a pool with memory can reach, a thread that is about to pluck a job will get
  -- the function and the argument of the oldest job that has been posted and not taken.
  pub plucks_oldest :
      (i : ℕ)
      → s.pc i ≡ plucking
      → (fn args : ℕ) × (rest : List Job) × (q q' : Queue) × (s.pool.posted
          ≡ s.pool.taken ++ (fn, args) ∷ rest)
        × (Queue.next s.pool.jobs ≡ some (fn, q))
        × (Queue.next q ≡ some (args, q'))
        × Represents q' (flat rest)
  plucks_oldest i e =
      let v = Reach-Inv gives r in
      let l = v.ledger in
      let mine = v.owner.own i (rw e refl) in
      let all_whole : part_of s.pool.lock s.pc ≡ whole = rw mine (ap part e) in
      oldest s.pool l.queued (subst (Known s.pool) e (v.known i)) l.order
        (subst (λ p. Content s.pool.jobs p l.queued) all_whole l.content)

  -- In every state that a pool with memory can reach, a thread of the pool has ended only if `w_join`
  -- has set the flag.
  pub finished_stopped : (i : ℕ) → s.pc i ≡ finished → s.pool.stop ≡ true
  finished_stopped i e = subst (Known s.pool) e ((Reach-Inv gives r).known i)

-- Each thread that `w_join` has joined has ended.
Joined : (ℕ → Pc) → Type 0
Joined pc = (i k : ℕ) → pc i ≡ joining k → (j : ℕ) → j < k → pc j ≡ finished

Move-ne-finished :
    {malloc : Malloc} {i : ℕ} {w w' : Workers} {p p' : Pc} → Move malloc i w p w' p' → p ≢ finished
Move-ne-finished (Move.finish g) e = cc
Move-ne-finished _ e = cc

Move-ne-joining :
    {malloc : Malloc} {i : ℕ} {w w' : Workers} {p p' : Pc}
    → Move malloc i w p w' p'
    → (k : ℕ) → p' ≢ joining k
Move-ne-joining (Move.finish g) k e = cc
Move-ne-joining _ k e = cc

update-Joined :
    (pc : ℕ → Pc) (i : ℕ) (p : Pc)
    → pc i ≢ finished
    → ((k : ℕ) → p ≡ joining k → (j : ℕ) → j < k → pc j ≡ finished)
    → Joined pc
    → Joined (update pc i p)
unfolding Joined
update-Joined pc i p ne mine old a k e j lt = elim (Bool-cases (i == j)) [
  | inl at ↦ let same : i ≡ j = ground arith in absurd (ne (ap pc same ∙ ended))
  | inr other ↦ rw other ended
]
  where
    ended : pc j ≡ finished
    ended = elim (Bool-cases (i == a)) [
      | inl at ↦ mine k (rw at at e) j lt
      | inr other ↦ old a k (rw other at e) j lt
    ]

Signals-ne-finished : {p p' : Pc} → Signals p p' → p ≢ finished
Signals-ne-finished leaving_signals e = cc
Signals-ne-finished worker_signals e = cc
Signals-ne-finished post_signals e = cc
Signals-ne-finished join_signals e = cc

Signals-joining : {p p' : Pc} → Signals p p' → (k : ℕ) → p' ≡ joining k → k ≡ 0
Signals-joining leaving_signals k e = cc
Signals-joining worker_signals k e = cc
Signals-joining post_signals k e = cc
Signals-joining join_signals k e = ground arith

signal-Joined :
    (pc : ℕ → Pc) (i : ℕ) {p : Pc} → Signals (pc i) p → Joined pc → Joined (update pc i p)
signal-Joined pc i {p} sg =
    update-Joined pc i p (Signals-ne-finished sg)
      (λ k e j lt. absurd (none_below k j (Signals-joining sg k e) lt))
  where
    none_below : (k j : ℕ) → k ≡ 0 → j < k → ⊥
    none_below k j e lt = omega arith

wake-Joined : (pc : ℕ → Pc) (j : ℕ) → pc j ≡ waiting → Joined pc → Joined (update pc j woken)
wake-Joined pc j e = update-Joined pc j woken (λ f. cc) (λ k e'. cc)

Step-Joined :
    {malloc : Malloc} {s t : System} {e : Event} → Step malloc s e t → Joined s.pc → Joined t.pc
unfolding Joined
Step-Joined {malloc} {s} (move i {w} {p} mv) o =
    update-Joined s.pc i p (Move-ne-finished mv) (λ k e. absurd (Move-ne-joining mv k e)) o
Step-Joined {malloc} {s} (signal_one i j {p} sg e) o =
    wake-Joined (update s.pc i p) j (still_waiting s.pc i j sg e) (signal-Joined s.pc i sg o)
Step-Joined {malloc} {s} (signal_none i sg none_waits) o = signal-Joined s.pc i sg o
Step-Joined {malloc} {s} (join_one i k e lt fin) o =
    update-Joined s.pc i (joining (k + 1)) (λ f. cc)
      (λ k' e' j lt'. one_more k' (joining-eq e') j lt') o
  where
    joining-eq : {a b : ℕ} → joining a ≡ joining b → a ≡ b
    joining-eq e = ground arith

    one_more : (k' : ℕ) → k + 1 ≡ k' → (j : ℕ) → j < k' → s.pc j ≡ finished
    one_more k' same j lt' = elim (Bool-cases (ltb j k)) [
      | inl below ↦ o i k e j (ground arith)
      | inr last ↦ let at : j ≡ k = ground arith in ap s.pc at ∙ fin
    ]
Step-Joined {malloc} {s} (call_post i fn args e) o =
    update-Joined s.pc i (post_lock fn args) (λ f. cc) (λ k e'. cc) o
Step-Joined {malloc} {s} (wake j e) o = wake-Joined s.pc j e o

Reach-Joined : {malloc : Malloc} {n : ℕ} {s : System} → Reach malloc n s → Joined s.pc
unfolding Joined create
Reach-Joined {malloc} {n} start i k e j lt = elim (Bool-cases (ltb i n)) [
  | inl below ↦ cc (rw below at e)
  | inr out ↦ cc (rw out at e)
]
Reach-Joined (later r st) i k e j lt = Step-Joined st (Reach-Joined r) i k e j lt

-- In `w_join`.
abbrev pub in_join : Pc → Bool
in_join join_test = true
in_join join_set = true
in_join join_signal = true
in_join (joining _) = true
in_join _ = false

-- How a thread may leave `w_join`: the flag was set at its first line, or all threads have ended.
abbrev Left : System → Pc → Type 0
Left s p =
    ((p ≡ join_test) × (s.pool.stop ≡ true))
    ⊎ ((j : ℕ) → j < s.pool.num_threads → s.pc j ≡ finished)

Move-Left :
    {malloc : Malloc} {s : System} {i : ℕ} {w : Workers} {p p' : Pc}
    → Joined s.pc
    → Move malloc i s.pool p w p'
    → s.pc i ≡ p
    → in_join p ≡ true
    → p' ≡ outside
    → Left s p
unfolding Joined
Move-Left o (Move.join_again g) at inside out = inl (refl, g)
Move-Left {s = s} {i = i} o (Move.join_end {k} g) at inside out =
    inr (λ j lt. o i k at j (subst (λ n. j < n) (sym g) lt))
Move-Left o (Move.join_first g) at inside out = absurd (cc)
Move-Left o Move.set_stop at inside out = absurd (cc)
Move-Left o _ at inside out = absurd (cc)

Signals-stays : {p p' : Pc} → Signals p p' → in_join p ≡ true → p' ≢ outside
Signals-stays leaving_signals inside out = cc
Signals-stays worker_signals inside out = cc
Signals-stays post_signals inside out = cc
Signals-stays join_signals inside out = cc

-- A thread that another one's step leaves alone.
unmoved :
    (pc : ℕ → Pc) (i j : ℕ) (p : Pc)
    → in_join (pc j) ≡ true
    → update pc i p j ≡ outside
    → (i ≡ j) × (p ≡ outside)
unmoved pc i j p inside out = elim (Bool-cases (i == j)) [
  | inl at ↦ (ground arith, rw at at out)
  | inr other ↦ let gone : pc j ≡ outside = rw other at out in absurd (cc (rw gone at inside))
]

-- In every state that a pool can reach, if a step of any thread takes a thread out of `w_join`, then
-- either the flag was set already when that thread came to the first line of `w_join`, or all
-- threads of the pool have ended.
pub join_waits_for_all :
    {malloc : Malloc} {n : ℕ} {s t : System} {e : Event}
    → Reach malloc n s
    → Step malloc s e t
    → (i : ℕ) → in_join (s.pc i) ≡ true
    → t.pc i ≡ outside
    → ((s.pc i ≡ join_test) × (s.pool.stop ≡ true))
      ⊎ ((j : ℕ) → j < s.pool.num_threads → s.pc j ≡ finished)
join_waits_for_all {s = s} r (move k {p = p} mv) i inside out =
    let (same, left) = unmoved s.pc k i p inside out in
    subst (λ x. Left s (s.pc x)) same
      (Move-Left (Reach-Joined r) mv refl (subst (λ x. in_join (s.pc x) ≡ true) (sym same) inside)
        left)
join_waits_for_all {s = s} r (signal_one k j {p} sg e) i inside out = elim (Bool-cases (j == i)) [
  | inl at ↦ absurd (cc (rw at at out))
  | inr other ↦
      let (same, left) = unmoved s.pc k i p inside (rw other at out) in
      absurd (Signals-stays sg (subst (λ x. in_join (s.pc x) ≡ true) (sym same) inside) left)
]
join_waits_for_all {s = s} r (signal_none k {p} sg none_waits) i inside out =
    let (same, left) = unmoved s.pc k i p inside out in
    absurd (Signals-stays sg (subst (λ x. in_join (s.pc x) ≡ true) (sym same) inside) left)
join_waits_for_all {s = s} r (join_one k m e lt fin) i inside out =
    let (same, left) = unmoved s.pc k i (joining (m + 1)) inside out in absurd (cc)
join_waits_for_all {s = s} r (call_post k fn args e) i inside out =
    let (same, left) = unmoved s.pc k i (post_lock fn args) inside out in absurd (cc)
join_waits_for_all {s = s} r (wake j e) i inside out =
    let (same, left) = unmoved s.pc j i woken inside out in absurd (cc)
