-- ===== src/Boolset/Valid.antt =====
-- A boolset as a set of indices, `boolset_create` and `boolset_get`.
use c10k.Base.{
  ℕ, zero, suc, ◌*◌, ◌/◌, ◌%◌, ◌^◌, ◌≤◌, ◌<◌, ◌≡◌, refl, Bool, true, false, Option, none, some,
  List, [], ◌∷◌, length, get_elem?, arith,
}
use c10k.Base.Bits.{bit-zero}
use c10k.Base.Memory.{Block, Malloc, load, fill, join}
use c10k.Boolset.{Boolset, create, get}
use c10k.Boolset.Words.{is_set, test-eq-is_set}

-- Each of the words was written, with a number of 64 bits.
abbrev pub Words : Block ℕ → Type 0
Words cells =
    (i : ℕ) → i < length cells → (w : ℕ) × (get_elem? cells i ≡ some (some w)) × (w < 2 ^ 64)

-- An index is a BOOLSET_TYPE, so a set never needs more than `2 ^ 58` words.
pub record IsValid (b : Boolset) : Type 0 where
  pub size_eq : length b.cells ≡ b.size
  pub size_le : b.size ≤ 2 ^ 58
  pub words : Words b.cells

has_in : Option ℕ → ℕ → Bool
has_in none minor = false
has_in (some word) minor = is_set word minor

-- Whether `index` is in the set; one beyond the words is not.
pub has : Boolset → ℕ → Bool
unfolding has_in load
has b index = has_in (load b.cells (index / 64)) (index % 64)

pub has_of_word :
    (b : Boolset) (index : ℕ) {w : ℕ}
    → get_elem? b.cells (index / 64) ≡ some (some w)
    → has b index ≡ is_set w (index % 64)
unfolding has
has_of_word b index e = rw e

pub has_same :
    (b b' : Boolset) (index : ℕ)
    → get_elem? b'.cells (index / 64) ≡ get_elem? b.cells (index / 64)
    → has b' index ≡ has b index
unfolding has
has_same b b' index e = rw e

pub get_elem?_beyond {ℓ} :
    {A : Type ℓ} (xs : List A) (i : ℕ) → length xs ≤ i → get_elem? xs i ≡ none
get_elem?_beyond [] i h = refl
get_elem?_beyond (x ∷ xs) zero h = absurd (omega arith)
get_elem?_beyond (x ∷ xs) (suc i) h = get_elem?_beyond xs i (omega arith)

pub has_beyond : (b : Boolset) (index : ℕ) → length b.cells * 64 ≤ index → has b index ≡ false
unfolding has
has_beyond b index h = rw (get_elem?_beyond b.cells (index / 64) (omega arith))

one_word : (i : ℕ) → i < 1 → get_elem? {A = Option ℕ} (some 0 ∷ []) i ≡ some (some 0)
one_word zero h = refl
one_word (suc i) h = absurd (omega arith)

has_fresh : (n m : ℕ) → has_in (join (get_elem? {A = Option ℕ} (some 0 ∷ []) n)) m ≡ false
unfolding has_in
has_fresh zero m = rw (bit-zero m)
has_fresh (suc n) m = refl

-- No index is in a set of one word that is 0.
pub has_word_zero : (index : ℕ) → has (record { size = 1; cells = some 0 ∷ [] }) index ≡ false
unfolding has
has_word_zero index = has_fresh (index / 64) (index % 64)

-- If `malloc` gives 8 bytes, a new set is valid, has one word, and no index is in it.
pub create-IsValid :
    (malloc : Malloc)
    → malloc 8 ≡ true
    → (b : Boolset) × (create malloc ≡ some b)
      × IsValid b
      × (b.size ≡ 1)
      × ((index : ℕ) → has b index ≡ false)
unfolding create fill has
create-IsValid malloc gives = (
  record { size = 1; cells = some 0 ∷ [] },
  rw gives,
  record { size_eq = refl; size_le = omega arith; words = λ i h. (0, one_word i h, omega arith) },
  refl,
  has_word_zero,
)

-- On a valid set, `boolset_get` of an index within the words answers whether it is in the set.
pub get-has :
    (b : Boolset) (index : ℕ) → IsValid b → index < b.size * 64 → get b index ≡ some (has b index)
unfolding get load
get-has b index v h =
    let (w, e, _) = v.words (index / 64) (omega (arith, v.size_eq)) in
    rw (has_of_word b index e, e, test-eq-is_set w (index % 64) (omega arith))

-- There is no check of the index: on a valid set, `boolset_get` of any index beyond the words reads
-- outside the block.
pub get_beyond : (b : Boolset) (index : ℕ) → IsValid b → b.size * 64 ≤ index → get b index ≡ none
unfolding get load
get_beyond b index v h = rw (get_elem?_beyond b.cells (index / 64) (omega (arith, v.size_eq)))
