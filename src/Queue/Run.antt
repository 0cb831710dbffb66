-- ===== src/Queue/Run.antt =====
-- Every sequence of calls on a queue against a first-in-first-out list.
use c10k.Base.{
  ℕ, ◌+◌, ◌^◌, ◌≤◌, ◌≡◌, refl, Option, some, List, [], ◌∷◌, ◌++◌, length, length-append, arith,
}
use c10k.Base.Memory.{◌>>=◌, Malloc, Gives}
use c10k.Queue.{Queue, null, create, next, push}
use c10k.Queue.Represents.{Represents, create-Represents, next-nil, next-cons}
use c10k.Queue.Push.{push-Represents}

-- A client's calls: `put v` is `q_push(q, v)`, `get` is `q_next(q)`.
pub data Call : Type 0 where
  put : ℕ → Call
  get : Call

-- The results of the `q_next` calls, in order, and the queue that is left.
unfoldable pub run : Malloc → List Call → Queue → Option (List ℕ × Queue)
run malloc [] q = some ([], q)
run malloc (put v ∷ calls) q = do q' ← push malloc q v; run malloc calls q'
run malloc (get ∷ calls) q = do
  (v, q') ← next q
  (vs, q'') ← run malloc calls q'
  some (v ∷ vs, q'')

-- The same calls on a list, oldest first.
pub results : List Call → List ℕ → List ℕ
results [] xs = []
results (put v ∷ calls) xs = results calls (xs ++ v ∷ [])
results (get ∷ calls) [] = null ∷ results calls []
results (get ∷ calls) (x ∷ xs) = x ∷ results calls xs

pub remains : List Call → List ℕ → List ℕ
remains [] xs = xs
remains (put v ∷ calls) xs = remains calls (xs ++ v ∷ [])
remains (get ∷ calls) [] = remains calls []
remains (get ∷ calls) (x ∷ xs) = remains calls xs

abbrev RunsAs : Malloc → List Call → Queue → List ℕ → Type 0
RunsAs malloc calls q xs =
    (q' : Queue) × (run malloc calls q ≡ some (results calls xs, q'))
    × Represents q' (remains calls xs)

run_from :
    (malloc : Malloc) (calls : List Call) {q : Queue} (xs : List ℕ)
    → Gives malloc (2 ^ 33)
    → Represents q xs
    → length xs + length calls ≤ 2 ^ 30
    → RunsAs malloc calls q xs
unfolding run results remains
run_from malloc [] {q} xs gives r few = (q, refl, r)
run_from malloc (put v ∷ calls) xs gives r few =
    let (q', runs, r') = push-Represents malloc v gives r (omega arith) in
    rw runs
      (run_from malloc calls (xs ++ v ∷ []) gives r' (omega (arith, length-append xs (v ∷ []))))
run_from malloc (get ∷ calls) {q} [] gives r few =
    let (q', runs, r') = run_from malloc calls [] gives r (omega arith) in
    rw (next-nil r, runs) (q', refl, r')
run_from malloc (get ∷ calls) (x ∷ xs) gives r few =
    let (q1, first, r1, _) = next-cons r in
    let (q', runs, r') = run_from malloc calls xs gives r1 (omega arith) in
    rw (first, runs) (q', refl, r')

-- If `malloc` gives every block of at most `2 ^ 33` bytes, a queue that was just created answers
-- any sequence of at most `2 ^ 30` calls of `q_push` and `q_next` as a first-in-first-out list does,
-- through every wrap and every growth of the ring, and represents what the list holds in the end.
pub run-create :
    (malloc : Malloc) (calls : List Call)
    → Gives malloc (2 ^ 33)
    → length calls ≤ 2 ^ 30
    → (q' : Queue) × (run malloc calls (create malloc) ≡ some (results calls [], q'))
      × Represents q' (remains calls [])
run-create malloc calls gives few =
    run_from malloc calls [] gives (create-Represents malloc λ m le. gives m (omega arith))
      (omega arith)
