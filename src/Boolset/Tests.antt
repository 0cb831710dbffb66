-- ===== src/Boolset/Tests.antt =====
-- The boolset laws at concrete sets.
use c10k.Base.{
  ℕ, zero, suc, ◌+◌, ◌*◌, ◌/◌, ◌<◌, max, ◌≡◌, refl, sym, ap, subst, true, not, Option, none, some,
  List, [], ◌∷◌, ◌++◌, get_elem?, ◌==◌, if◌then◌else◌, ◌^◌, arith,
}
use c10k.Base.Memory.{◌>>=◌, Malloc, Gives, load, store, fill, copy}
use c10k.Boolset.{Boolset, create, expand, write_bit, set, get, foreach, foreach_word, foreach_bit}
use c10k.Boolset.Valid.{IsValid, has, get-has, get_beyond}
use c10k.Boolset.Set.{set-has}
use c10k.Boolset.Foreach.{scan, IsTame, foreach-eq-scan}

abbrev ample : Malloc
ample _ = true

ample-Gives : (n : ℕ) → Gives ample n
ample-Gives n m h = refl

-- 1, 3 and 64.
abbrev small : Boolset
small = record { size = 2; cells = some 10 ∷ some 1 ∷ [] }

small-IsValid : IsValid small
small-IsValid = record { size_eq = refl; size_le = omega arith; words = words }
  where
    words : (i : ℕ) → i < 2 → (w : ℕ) × (get_elem? small.cells i ≡ some (some w)) × (w < 2 ^ 64)
    words zero h = (10, refl, omega arith)
    words (suc zero) h = (1, refl, omega arith)
    words (suc (suc i)) h = absurd (omega arith)

builds_small :
    (create ample >>= λ b. set ample b 64 1 >>= λ b'. set ample b' 1 5 >>= λ b''. set ample b'' 3 1)
    ≡ some small
unfolding create set expand write_bit load store fill copy
builds_small = refl

-- A callback that notes the index, with the notes beside the set.
abbrev note : ℕ → Boolset × List ℕ → Option (Boolset × List ℕ)
note i (b, seen) = some (b, seen ++ i ∷ [])

abbrev set_of : Boolset × List ℕ → Boolset
set_of s = s.0

visits : foreach set_of note (small, []) ≡ some (small, 1 ∷ 3 ∷ 64 ∷ [])
unfolding foreach foreach_word foreach_bit load
visits = refl

note-IsTame : IsTame set_of note
note-IsTame = record {
  valid = λ i s s' v h e. subst_valid i s s' v e;
  same_size = λ i s s' v h e. size_of i s s' e;
  later = λ i s s' v h e j lt. has_of i s s' e j;
}
  where
    set_kept : (i : ℕ) (s s' : Boolset × List ℕ) → note i s ≡ some s' → s'.0 ≡ s.0
    set_kept i (b, seen) s' e = ground arith

    subst_valid :
        (i : ℕ) (s s' : Boolset × List ℕ) → IsValid (s.0) → note i s ≡ some s' → IsValid (s'.0)
    subst_valid i s s' v e = subst IsValid (sym (set_kept i s s' e)) v

    size_of : (i : ℕ) (s s' : Boolset × List ℕ) → note i s ≡ some s' → s'.0.size ≡ s.0.size
    size_of i s s' e = ap (λ b. b.size) (set_kept i s s' e)

    has_of :
        (i : ℕ) (s s' : Boolset × List ℕ)
        → note i s ≡ some s'
        → (j : ℕ) → has (s'.0) j ≡ has (s.0) j
    has_of i s s' e j = ap (λ b. has b j) (set_kept i s s' e)

get-has_example : get small 3 ≡ some (has small 3)
get-has_example = get-has small 3 small-IsValid (omega arith)

get_beyond_example : get small 128 ≡ none
get_beyond_example = get_beyond small 128 small-IsValid (omega arith)

set-has_example :
    (b' : Boolset) × (set ample small 200 1 ≡ some b')
    × IsValid b'
    × (b'.size ≡ max 2 (200 / 64 + 1))
    × ((j : ℕ) → has b' j ≡ (if j == 200 then not (1 == 0) else has small j))
set-has_example = set-has ample small 200 1 (ample-Gives (2 ^ 61)) small-IsValid (omega arith)

foreach-eq-scan_example :
    foreach set_of note (small, []) ≡ scan set_of note (small.size * 64) 0 (small, [])
foreach-eq-scan_example = foreach-eq-scan set_of note note-IsTame (small, []) small-IsValid
