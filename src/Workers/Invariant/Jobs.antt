-- ===== src/Workers/Invariant/Jobs.antt =====
-- A move keeps the queue in step with the jobs posted and taken.
use c10k.Base.{
  ℕ, ◌^◌, ◌≤◌, ◌≡◌, refl, ap, sym, subst, ◌∙◌, inl, inr, Bool, true, false, Option, none, some,
  List, [], ◌∷◌, ◌++◌, length, arith, dec_lt, ◌==◌, if◌then◌else◌, Bool-cases,
}
use mathlib.Core.List.{append_assoc}
use native.Mathlib.Nat.{pow-le-pow_right}
use c10k.Base.Memory.{Malloc, Gives}
use c10k.Queue
use c10k.Queue.{Queue}
use c10k.Queue.Represents.{Represents, next-cons, is_empty-Represents}
use c10k.Queue.Push.{push-Represents, push_overflow}
use c10k.Workers.{Job, Workers, Pc, update, Move, next_fn, next_args, push_first, push_second}
use c10k.Workers.Invariant.Defs.{holds, Known, Owns, whole, got, put, part, part_of, flat, Ledger}
use c10k.Base.Mutex.{Locks, keeps, acquires, releases}

some_pair-eq :
    {v v' : ℕ} {q q' : Queue}
    → ◌≡◌ {A = Option (ℕ × Queue)} (some (v, q)) (some (v', q'))
    → (v ≡ v') × (q ≡ q')
some_pair-eq {v} {v'} {q} {q'} e = (ap value e, ap queue e)
  where
    value : Option (ℕ × Queue) → ℕ
    value none = v
    value (some r) = r.0

    queue : Option (ℕ × Queue) → Queue
    queue none = q
    queue (some r) = r.1

some_queue-eq : {q q' : Queue} → some q ≡ some q' → q ≡ q'
some_queue-eq {q} e = ap queue e
  where
    queue : Option Queue → Queue
    queue none = q
    queue (some r) = r

-- A call of `q_next` that returned has taken the oldest pointer.
next-Represents :
    {q q' : Queue} {x v : ℕ} {xs : List ℕ}
    → Represents q (x ∷ xs)
    → Queue.next q ≡ some (v, q')
    → (v ≡ x) × Represents q' xs
next-Represents {xs} r e =
    let (q1, runs, r1, _) = next-cons r in
    let (v, q) = some_pair-eq (sym e ∙ runs) in (v, subst (λ z. Represents z xs) (sym q) r1)

-- A call of `q_push` that returned has put the pointer behind the others.
push-Represents_eq :
    {malloc : Malloc} {q q' : Queue} (v : ℕ) {xs : List ℕ}
    → Gives malloc (2 ^ 33)
    → Represents q xs
    → Queue.push malloc q v ≡ some q'
    → Represents q' (xs ++ v ∷ [])
push-Represents_eq {malloc} {q} {q'} v {xs} gives r e = elim (dec_lt (length xs) (2 ^ 30)) [
  | yes few ↦
      let (q1, runs, r1) = push-Represents malloc v gives r few in
      subst (λ z. Represents z (xs ++ v ∷ [])) (some_queue-eq (sym runs ∙ e)) r1
  | no full ↦
      let over = push_overflow malloc v r (omega (arith, length-le r)) in
      absurd (never (sym over ∙ e))
]
  where
    length-le : Represents q xs → length xs ≤ 2 ^ 30
    length-le r = omega (arith, r.fits, pow-le-pow_right {n = 2} (omega arith) r.order_le)

    never : ◌≡◌ {A = Option Queue} none (some q') → ⊥
    never e = cc

flat-snoc :
    (jobs : List Job) (fn args : ℕ)
    → flat (jobs ++ (fn, args) ∷ []) ≡ (flat jobs ++ fn ∷ []) ++ args ∷ []
flat-snoc [] fn args = refl
flat-snoc ((f, a) ∷ jobs) fn args = ap (λ l. f ∷ a ∷ l) (flat-snoc jobs fn args)

-- What a move does to the queue and the history.
pub data Effect (w w' : Workers) (p p' : Pc) : Type 0 where
  idle :
      w'.jobs ≡ w.jobs
      → w'.posted ≡ w.posted
      → w'.taken ≡ w.taken
      → part p ≡ whole
      → part p' ≡ whole
      → Effect w w' p p'
  work :
      w'.lock ≡ w.lock
      → holds p ≡ true
      → (Ledger w (part p) → Ledger w' (part p'))
      → Effect w w' p p'

pluck_first :
    (w : Workers) {fn : ℕ} {q : Queue}
    → Queue.is_empty w.jobs ≡ false
    → Queue.next w.jobs ≡ some (fn, q)
    → Ledger w whole
    → Ledger (record w { jobs = q }) (got fn)
pluck_first w {fn} {q} full e l = first l.queued l.order l.content
  where
    first :
        (queued : List Job)
        → w.posted ≡ w.taken ++ queued
        → Represents w.jobs (flat queued)
        → Ledger (record w { jobs = q }) (got fn)
    first [] o r = let empty = (is_empty-Represents [] r).1 refl in absurd (cc)
    first ((f, a) ∷ rest) o r =
        let (v, r') = next-Represents r e in
        record {
          queued = (f, a) ∷ rest;
          order = o;
          content = (a, rest, ap (λ x. (x, a) ∷ rest) (sym v), r');
        }

pluck_second :
    (w : Workers) {fn args : ℕ} {q : Queue}
    → Queue.next w.jobs ≡ some (args, q)
    → Ledger w (got fn)
    → Ledger (record w { jobs = q; taken = w.taken ++ (fn, args) ∷ [] }) whole
pluck_second w {fn} {args} e l =
    let (a, rest, is, r) = l.content in
    let (v, r') = next-Represents r e in
    record {
      queued = rest;
      order =
          l.order
          ∙ ap (λ k. w.taken ++ k) (is ∙ ap (λ x. (fn, x) ∷ rest) (sym v))
          ∙ sym (append_assoc (w.taken) ((fn, args) ∷ []) rest);
      content = r';
    }

push_behind :
    {malloc : Malloc} (w : Workers) {fn : ℕ} (args : ℕ) {q : Queue}
    → Gives malloc (2 ^ 33)
    → Queue.push malloc w.jobs args ≡ some q
    → Ledger w (put fn)
    → Ledger (record w { jobs = q; posted = w.posted ++ (fn, args) ∷ [] }) whole
push_behind w {fn} args gives e l = record {
  queued = l.queued ++ (fn, args) ∷ [];
  order =
      ap (λ k. k ++ (fn, args) ∷ []) l.order ∙ append_assoc (w.taken) l.queued ((fn, args) ∷ []);
  content =
      subst (Represents _) (sym (flat-snoc l.queued fn args))
        (push-Represents_eq args gives l.content e);
}

pub Move-Effect :
    {malloc : Malloc} {i : ℕ} {w w' : Workers} {p p' : Pc}
    → Gives malloc (2 ^ 33)
    → Move malloc i w p w' p'
    → Known w p
    → Effect w w' p p'
Move-Effect {w} gives (next_fn e) k = work refl refl (pluck_first w k e)
Move-Effect {w} gives (next_args e) k = work refl refl (pluck_second w e)
Move-Effect {w} gives (push_first {fn} e) k = work refl refl (λ l. record {
  queued = l.queued;
  order = l.order;
  content = push-Represents_eq fn gives l.content e;
})
Move-Effect {w} gives (push_second {fn} {args} e) k = work refl refl (push_behind w args gives e)
Move-Effect gives _ k = idle refl refl refl refl refl

pub part-update :
    (pc : ℕ → Pc) (i : ℕ) (p : Pc) (j : ℕ)
    → part (update pc i p j) ≡ (if i == j then part p else part (pc j))
part-update pc i p j = elim (Bool-cases (i == j)) [ inl e ↦ rw e | inr e ↦ rw e ]

-- The part of the owner, before and after a move that leaves whole jobs in the queue.
part_of-Locks :
    (i : ℕ) (l l' : Option ℕ) (h h' : Bool) (pc : ℕ → Pc) (p' : Pc)
    → Locks i l h l' h'
    → h ≡ holds (pc i)
    → Owns l pc
    → part (pc i) ≡ whole
    → part p' ≡ whole
    → part_of l' (update pc i p') ≡ part_of l pc
part_of-Locks i none l' h h' pc p' keeps same o e e' = refl
part_of-Locks i (some k) l' h h' pc p' keeps same o e e' =
    part-update pc i p' k ∙ elim (Bool-cases (i == k)) [
      | inl at ↦ let here : i ≡ k = ground arith in rw at (e' ∙ sym e ∙ ap (λ n. part (pc n)) here)
      | inr other ↦ rw other refl
    ]
part_of-Locks i l l' h h' pc p' (acquires free) same o e e' =
    rw free (part-update pc i p' i ∙ if_self ∙ e')
  where
    if_self : (if i == i then part p' else part (pc i)) ≡ part p'
    if_self = let at : (i == i) ≡ true = ground arith in rw at refl
part_of-Locks i l l' h h' pc p' releases same o e e' = rw (o.own i (sym same)) (sym e)

pub Ledger-update :
    {i : ℕ} {w w' : Workers} (pc : ℕ → Pc) (p' : Pc)
    → Effect w w' (pc i) p'
    → Locks i w.lock (holds (pc i)) w'.lock (holds p')
    → Owns w.lock pc
    → Ledger w (part_of w.lock pc)
    → Ledger w' (part_of w'.lock (update pc i p'))
Ledger-update {i} {w} {w'} pc p' (idle jobs posted taken e e') locks o l =
    rw (part_of-Locks i w.lock w'.lock (holds (pc i)) (holds p') pc p' locks refl o e e') (record {
      queued = l.queued;
      order = rw (posted, taken) l.order;
      content = rw jobs l.content;
    })
Ledger-update {i} {w} {w'} pc p' (work same h step) locks o l =
    let mine = o.own i h in
    let old : part_of w.lock pc ≡ part (pc i) = rw mine refl in
    let new : part_of w'.lock (update pc i p') ≡ part p' =
      rw (same, mine) (here (part-update pc i p' i)) in
    rw new (step (subst (Ledger w) old l))
  where
    here :
        part (update pc i p' i) ≡ (if i == i then part p' else part (pc i))
        → part (update pc i p' i) ≡ part p'
    here e = let at : (i == i) ≡ true = ground arith in e ∙ rw at refl
