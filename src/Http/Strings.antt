-- ===== src/Http/Strings.antt =====
-- NUL-terminated strings in blocks: what `strlen`, `memcpy`, `strcpy` and single stores do to them.
use c10k.Base.{
  ℕ, suc, ◌+◌, ◌≤◌, ◌<◌, ◌≡◌, refl, ap, ◌∙◌, false, ◌==◌, some, List, [], ◌∷◌, ◌++◌, map, length,
  length-append, length-map, drop, length-drop, set, arith,
}
use c10k.Base.Memory.{Block, store, store-eq-some, copy}
use c10k.Http.{strlen, strcpy, copy_at}
use c10k.Http.Reads.{Avoids}

-- `w` written over the start of `dst`.
abbrev pub over : List ℕ → Block ℕ → Block ℕ
over w dst = map some w ++ drop (length w) dst

pub length-over :
    (w : List ℕ) (dst : Block ℕ) → length w ≤ length dst → length (over w dst) ≡ length dst
length-over w dst h = omega (
  arith,
  length-append (map some w) (drop (length w) dst),
  length-map w (λ (x : ℕ). some x),
  length-drop (length w) dst,
)

set-over :
    (w : List ℕ) (dst : Block ℕ) (c : ℕ)
    → length w < length dst
    → set (over w dst) (length w) (some c) ≡ over (w ++ c ∷ []) dst
set-over [] [] c h = absurd (omega arith)
set-over [] (d ∷ dst) c h = refl
set-over (x ∷ w) [] c h = absurd (omega arith)
set-over (x ∷ w) (d ∷ dst) c h = ap (λ k. some x ∷ k) (set-over w dst c (omega arith))

-- A store right behind what was written.
pub store-over :
    (w : List ℕ) (dst : Block ℕ) (i c : ℕ)
    → i ≡ length w
    → length w < length dst
    → store (over w dst) i c ≡ some (over (w ++ c ∷ []) dst)
store-over w dst i c e h =
    rw (e, store-eq-some (over w dst) (length w) c (omega (arith, length-over w dst (omega arith))))
      (ap some (set-over w dst c h))

pub copy-over :
    (w : List ℕ) (dst src : Block ℕ)
    → length w ≤ length dst
    → copy (length w) dst (map some w ++ src) ≡ some (over w dst)
unfolding copy
copy-over [] dst src h = refl
copy-over (x ∷ w) [] src h = absurd (omega arith)
copy-over (x ∷ w) (d ∷ dst) src h = rw (copy-over w dst src (omega arith))

copy_at_here :
    (w v : List ℕ) (dst src : Block ℕ)
    → length w + length v ≤ length dst
    → copy_at (length w) (length v) (over w dst) (map some v ++ src) ≡ some (over (w ++ v) dst)
unfolding copy_at
copy_at_here [] v dst src h = copy-over v dst src (omega arith)
copy_at_here (x ∷ w) v [] src h = absurd (omega arith)
copy_at_here (x ∷ w) v (d ∷ dst) src h = rw (copy_at_here w v dst src (omega arith))

-- A copy right behind what was written.
pub copy_at-over :
    (w v : List ℕ) (dst src : Block ℕ) (i : ℕ)
    → i ≡ length w
    → length w + length v ≤ length dst
    → copy_at i (length v) (over w dst) (map some v ++ src) ≡ some (over (w ++ v) dst)
copy_at-over w v dst src i e h = rw e (copy_at_here w v dst src h)

-- A string at the start of a block of `size` bytes.
pub record Holds (size : ℕ) (block : Block ℕ) (w : List ℕ) : Type 0 where
  pub sized : length block ≡ size
  pub rest : Block ℕ
  pub shape : block ≡ map some w ++ some 0 ∷ rest
  pub clean : Avoids 0 w

strlen-text :
    (w : List ℕ) (rest : Block ℕ)
    → Avoids 0 w
    → strlen (map some w ++ some 0 ∷ rest) ≡ some (length w)
unfolding strlen
strlen-text [] rest a = refl
strlen-text (x ∷ w) rest (ne, a) =
    let miss : (x == 0) ≡ false = ground arith in rw (strlen-text w rest a, miss)

pub strlen-Holds :
    {size : ℕ} {block : Block ℕ} (w : List ℕ) → Holds size block w → strlen block ≡ some (length w)
strlen-Holds w h = ap strlen h.shape ∙ strlen-text w h.rest h.clean

-- With a NUL written behind it, the text is a string.
over_nul :
    (w : List ℕ) (dst : Block ℕ)
    → length w < length dst
    → over (w ++ 0 ∷ []) dst ≡ map some w ++ some 0 ∷ drop (suc (length w)) dst
over_nul [] [] h = absurd (omega arith)
over_nul [] (d ∷ dst) h = refl
over_nul (x ∷ w) [] h = absurd (omega arith)
over_nul (x ∷ w) (d ∷ dst) h = ap (λ k. some x ∷ k) (over_nul w dst (omega arith))

pub over-Holds :
    (size : ℕ) (w : List ℕ) (dst : Block ℕ)
    → Avoids 0 w
    → length dst ≡ size
    → length w < size
    → Holds size (over (w ++ 0 ∷ []) dst) w
over-Holds size w dst a e h = record {
  sized = length-over (w ++ 0 ∷ []) dst (omega (arith, length-append w (0 ∷ []))) ∙ e;
  rest = drop (suc (length w)) dst;
  shape = over_nul w dst (omega arith);
  clean = a;
}

-- A string is what is written over its own block.
pub over_self : (w : List ℕ) (cells : Block ℕ) → over w (map some w ++ cells) ≡ map some w ++ cells
over_self [] cells = refl
over_self (x ∷ w) cells = ap (λ k. some x ∷ k) (over_self w cells)

strcpy_over :
    (w : List ℕ) (dst rest : Block ℕ)
    → length w < length dst
    → copy (suc (length w)) dst (map some w ++ some 0 ∷ rest) ≡ some (over (w ++ 0 ∷ []) dst)
unfolding copy
strcpy_over [] [] rest h = absurd (omega arith)
strcpy_over [] (d ∷ dst) rest h = refl
strcpy_over (x ∷ w) [] rest h = absurd (omega arith)
strcpy_over (x ∷ w) (d ∷ dst) rest h = rw (strcpy_over w dst rest (omega arith))

-- A copied string is a string in the block that it is copied to.
pub strcpy-Holds :
    {size from : ℕ} {block : Block ℕ} (w : List ℕ) (dst : Block ℕ)
    → Holds from block w
    → length dst ≡ size
    → length w < size
    → (out : Block ℕ) × (strcpy dst block ≡ some out) × Holds size out w
unfolding strcpy
strcpy-Holds {size} w dst h e fits = (
  over (w ++ 0 ∷ []) dst,
  rw (h.shape, strlen-text w h.rest h.clean, strcpy_over w dst h.rest (omega arith)),
  over-Holds size w dst h.clean e fits,
)
