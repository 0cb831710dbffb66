-- ===== src/Boolset/Set.antt =====
-- `boolset_expand` and `boolset_set`.
use c10k.Base.{
  ℕ, zero, suc, ◌+◌, ◌*◌, ◌/◌, ◌%◌, ◌^◌, ◌≤◌, ◌<◌, max, bit_and, ◌≡◌, refl, ap, ap₂, sym, ◌∙◌, ◌⊎◌,
  inl, inr, true, false, not, Option, none, some, List, [], ◌∷◌, length, get_elem?, set as set_elem,
  length-set, get_elem?-set_self, get_elem?-set_ne, replicate, length-replicate, arith, dec_lt,
  ℕ_discrete, ltb, ◌==◌, lt→ltb, if◌then◌else◌,
}
use c10k.Base.Bits.{bit-zero, complement}
use c10k.Base.Memory.{Block, Malloc, Gives, allocate-eq-replicate, load, store-eq-some, fill, copy}
use c10k.Boolset.{Boolset, u64, mask_of, expand, write_bit, set}
use c10k.Boolset.Words.{is_set, updated, updated-lt, updated_self, updated_ne}
use c10k.Boolset.Valid.{IsValid, Words, has, has_of_word, has_same, has_beyond}

fill-replicate : (n v : ℕ) → fill n v (replicate n none) ≡ some (replicate n (some v))
unfolding fill
fill-replicate zero v = refl
fill-replicate (suc n) v = rw (fill-replicate n v)

get_elem?-replicate {ℓ} :
    {A : Type ℓ} (n : ℕ) (a : A) (i : ℕ) → i < n → get_elem? (replicate n a) i ≡ some a
get_elem?-replicate zero a i h = absurd (omega arith)
get_elem?-replicate (suc n) a zero h = refl
get_elem?-replicate (suc n) a (suc i) h = get_elem?-replicate n a i (omega arith)

-- What `memcpy` of a whole block to the start of another leaves.
record Copied (dst src : Block ℕ) (out : Option (Block ℕ)) : Type 0 where
  cells : Block ℕ
  returns : out ≡ some cells
  same_length : length cells ≡ length dst
  front : (i : ℕ) → i < length src → get_elem? cells i ≡ get_elem? src i
  rest : (i : ℕ) → length src ≤ i → get_elem? cells i ≡ get_elem? dst i

copy-Copied :
    (dst src : Block ℕ) → length src ≤ length dst → Copied dst src (copy (length src) dst src)
unfolding copy
copy-Copied dst [] h = record {
  cells = dst;
  returns = refl;
  same_length = refl;
  front = λ i p. absurd (omega arith);
  rest = λ i p. refl;
}
copy-Copied [] (s ∷ src) h = absurd (omega arith)
copy-Copied (d ∷ dst) (s ∷ src) h =
    let c = copy-Copied dst src (omega arith) in
    record {
      cells = s ∷ c.cells;
      returns = rw c.returns;
      same_length = ap suc c.same_length;
      front = front_of c.cells c.front;
      rest = rest_of c.cells c.rest;
    }
  where
    front_of :
        (cells : Block ℕ)
        → ((i : ℕ) → i < length src → get_elem? cells i ≡ get_elem? src i)
        → (i : ℕ) → i < suc (length src)
        → get_elem? (s ∷ cells) i ≡ get_elem? (s ∷ src) i
    front_of cells same zero p = refl
    front_of cells same (suc i) p = same i (omega arith)

    rest_of :
        (cells : Block ℕ)
        → ((i : ℕ) → length src ≤ i → get_elem? cells i ≡ get_elem? dst i)
        → (i : ℕ) → suc (length src) ≤ i
        → get_elem? (s ∷ cells) i ≡ get_elem? (d ∷ dst) i
    rest_of cells same zero p = absurd (omega arith)
    rest_of cells same (suc i) p = same i (omega arith)

-- The words that `memset` leaves.
abbrev zeros : ℕ → Block ℕ
zeros n = replicate n (some 0)

length-zeros : (n : ℕ) → length (zeros n) ≡ n
length-zeros n = length-replicate n (some 0)

module _ (b : Boolset) (n : ℕ) {out : Option (Block ℕ)} (c : Copied (zeros n) b.cells out) where
  Words-copied : Words b.cells → Words c.cells
  Words-copied words i h = elim (dec_lt i (length b.cells)) [
    | yes old ↦ let (w, e, small) = words i old in (w, c.front i old ∙ e, small)
    | no new ↦
        let inside : i < n = omega (arith, c.same_length, length-zeros n) in
        (0, c.rest i (omega arith) ∙ get_elem?-replicate n (some 0) i inside, omega arith)
  ]

  has-copied : (j : ℕ) → has (record { size = n; cells = c.cells }) j ≡ has b j
  has-copied j = elim (dec_lt (j / 64) (length b.cells)) [
    | yes old ↦ has_same b (record { size = n; cells = c.cells }) j (c.front (j / 64) old)
    | no beyond ↦ none_new (omega arith) ∙ sym (has_beyond b j (omega arith))
  ]
    where
      none_new : length b.cells ≤ j / 64 → has (record { size = n; cells = c.cells }) j ≡ false
      none_new far = elim (dec_lt (j / 64) n) [
        | yes zero_word ↦
            has_of_word (record { size = n; cells = c.cells }) j
              (c.rest (j / 64) far ∙ get_elem?-replicate n (some 0) (j / 64) zero_word)
            ∙ ap (λ k. k == 1) (bit-zero (j % 64))
        | no outside ↦
            has_beyond (record { size = n; cells = c.cells }) j
              (omega (arith, c.same_length, length-zeros n))
      ]

-- `boolset_expand` to more words leaves a valid set with the same indices in it.
pub expand-has :
    (malloc : Malloc) (b : Boolset) (n : ℕ)
    → Gives malloc (2 ^ 61)
    → IsValid b
    → b.size ≤ n
    → n ≤ 2 ^ 58
    → (b' : Boolset) × (expand malloc b n ≡ some b')
      × IsValid b'
      × (b'.size ≡ n)
      × ((j : ℕ) → has b' j ≡ has b j)
unfolding expand
expand-has malloc b n gives v le small =
    let c = copy-Copied (zeros n) b.cells (omega (arith, v.size_eq, length-zeros n)) in
    let old : u64 (b.size * 8) / 8 ≡ length b.cells = omega (arith, v.size_eq, v.size_le) in
    let new : u64 (n * 8) / 8 ≡ n = omega arith in
    rw
      (
        new,
        old,
        allocate-eq-replicate {A = ℕ} malloc 8 n (gives (n * 8) (omega arith)),
        fill-replicate n 0,
        c.returns,
      )
      (
        record { size = n; cells = c.cells },
        refl,
        record {
          size_eq = c.same_length ∙ length-zeros n;
          size_le = small;
          words = Words-copied b n c v.words;
        },
        refl,
        has-copied b n c,
      )

set-set {ℓ} :
    {A : Type ℓ} (xs : List A) (i : ℕ) (a c : A) → set_elem (set_elem xs i a) i c ≡ set_elem xs i c
set-set [] i a c = refl
set-set (x ∷ xs) zero a c = refl
set-set (x ∷ xs) (suc i) a c = ap (λ l. x ∷ l) (set-set xs i a c)

-- The two stores of `boolset_set` change one bit of one word.
record Written (b : Boolset) (index flag : ℕ) (out : Option (Block ℕ)) : Type 0 where
  cells : Block ℕ
  returns : out ≡ some cells
  valid : IsValid (record b { cells = cells })
  one_bit :
      (j : ℕ) → has (record b { cells = cells }) j ≡ (if j == index then flag == 1 else has b j)

module _ (b : Boolset) (index flag : ℕ) (v : IsValid b) (f : (flag ≡ 0) ⊎ (flag ≡ 1)) where
  abbrev cells_of : ℕ → Block ℕ
  cells_of w = set_elem b.cells (index / 64) (some (updated w (index % 64) flag))

  one_bit_of :
      (w : ℕ)
      → get_elem? b.cells (index / 64) ≡ some (some w)
      → index / 64 < length b.cells
      → (j : ℕ)
      → has (record b { cells = cells_of w }) j ≡ (if j == index then flag == 1 else has b j)
  one_bit_of w e inside j = elim (ℕ_discrete (index / 64) (j / 64)) [
    | yes same ↦
        has_of_word (record b { cells = cells_of w }) j
          (rw (← same)
            (get_elem?-set_self b.cells (index / 64) (some (updated w (index % 64) flag)) inside))
        ∙ in_word same
    | no other ↦
        let miss : (j == index) ≡ false = ground arith in
        rw miss (
          has_same b (record b { cells = cells_of w }) j
            (get_elem?-set_ne b.cells (some (updated w (index % 64) flag)) other))
  ]
    where
      in_word :
          index / 64 ≡ j / 64
          → is_set (updated w (index % 64) flag) (j % 64)
            ≡ (if j == index then flag == 1 else has b j)
      in_word same = elim (ℕ_discrete (index % 64) (j % 64)) [
        | yes low ↦
            let hit : (j == index) ≡ true = ground arith in
            rw (hit, ← low, updated_self w (index % 64) flag (omega arith) f)
        | no high ↦
            let miss : (j == index) ≡ false = ground arith in
            rw (miss, has_of_word b j {w = w} (rw (← same) e))
              (ap (λ k. k == 1)
                (updated_ne w (index % 64) flag (j % 64) (omega arith) (omega arith) f high))
      ]

  IsValid-cells_of : (w : ℕ) → w < 2 ^ 64 → IsValid (record b { cells = cells_of w })
  IsValid-cells_of w small = record {
    size_eq = length-set b.cells (index / 64) (some (updated w (index % 64) flag)) ∙ v.size_eq;
    size_le = v.size_le;
    words = all_written;
  }
    where
      all_written : Words (cells_of w)
      all_written i h = elim (ℕ_discrete (index / 64) i) [
        | yes e ↦ (
          updated w (index % 64) flag,
          rw (← e) (
              get_elem?-set_self b.cells (index / 64) (some (updated w (index % 64) flag)) (
                omega
                  (arith, length-set b.cells (index / 64) (some (updated w (index % 64) flag))))),
          updated-lt w (index % 64) flag small,
        )
        | no ne ↦
            let (old, e, below) = v.words i (
              omega
                (arith, length-set b.cells (index / 64) (some (updated w (index % 64) flag)))) in
            (old, get_elem?-set_ne b.cells (some (updated w (index % 64) flag)) ne ∙ e, below)
      ]

  write_bit-Written :
      index < b.size * 64
      → Written b index flag (write_bit b.cells (index / 64) (mask_of (index % 64)) flag)
  unfolding write_bit load
  write_bit-Written h =
      let inside : index / 64 < length b.cells = omega (arith, v.size_eq) in
      let (w, e, small) = v.words (index / 64) inside in
      let cleared = bit_and w (complement 64 (mask_of (index % 64))) in
      let half = set_elem b.cells (index / 64) (some cleared) in
      record {
        cells = cells_of w;
        returns = rw (
          e,
          store-eq-some b.cells (index / 64) cleared inside,
          get_elem?-set_self b.cells (index / 64) (some cleared) inside,
          store-eq-some half (index / 64) (updated w (index % 64) flag)
              (omega (arith, length-set b.cells (index / 64) (some cleared))),
          set-set b.cells (index / 64) (some cleared) (some (updated w (index % 64) flag)),
        );
        valid = IsValid-cells_of w small;
        one_bit = one_bit_of w e inside;
      }

-- The set that `boolset_set` writes to, grown where the index asks for it.
grown :
    (malloc : Malloc) (b : Boolset) (n : ℕ)
    → Gives malloc (2 ^ 61)
    → IsValid b
    → n ≤ 2 ^ 58
    → (b' : Boolset) × ((if ltb b.size n then expand malloc b n else some b) ≡ some b')
      × IsValid b'
      × (b'.size ≡ max b.size n)
      × ((j : ℕ) → has b' j ≡ has b j)
grown malloc b n gives v small = elim (dec_lt b.size n) [
  | yes more ↦
      let (b', runs, v', size, same) = expand-has malloc b n gives v (omega arith) small in
      rw (lt→ltb b.size n more) (b', runs, v', omega arith, same)
  | no enough ↦
      let t : ltb b.size n ≡ false = ground arith in rw t (b, refl, v, omega arith, λ j. refl)
]

-- `val = val != 0`
flag-cases :
    (val : ℕ)
    → let flag : ℕ = if val == 0 then 0 else 1 in
      ((flag ≡ 0) ⊎ (flag ≡ 1)) × ((flag == 1) ≡ not (val == 0))
flag-cases zero = (inl refl, refl)
flag-cases (suc n) = let e : (suc n == 0) ≡ false = ground arith in rw e (inr refl, refl)

-- With memory, on a valid set and for an index below `2 ^ 64`, `boolset_set` puts the index into the set for a `val` that is not 0 and takes it out for 0,
-- leaves every other index as it was, and grows the set as far as the index needs.
pub set-has :
    (malloc : Malloc) (b : Boolset) (index val : ℕ)
    → Gives malloc (2 ^ 61)
    → IsValid b
    → index < 2 ^ 64
    → (b' : Boolset) × (set malloc b index val ≡ some b')
      × IsValid b'
      × (b'.size ≡ max b.size (index / 64 + 1))
      × ((j : ℕ) → has b' j ≡ (if j == index then not (val == 0) else has b j))
unfolding set
set-has malloc b index val gives v h =
    let wraps : u64 (index / 64 + 1) ≡ index / 64 + 1 = omega arith in
    let (b1, runs, v1, size, same) = grown malloc b (index / 64 + 1) gives v (omega arith) in
    let flag : ℕ = if val == 0 then 0 else 1 in
    let (f, means) = flag-cases val in
    let out = write_bit-Written b1 index flag v1 f (omega arith) in
    rw (wraps, runs, out.returns)
      (
        record b1 { cells = out.cells },
        refl,
        out.valid,
        size,
        λ j. out.one_bit j ∙ ap₂ (λ p q. if j == index then p else q) means (same j),
      )
