-- ===== src/Page/Strings.antt =====
-- The string functions that `html_answer` uses, on blocks that hold a string.
use c10k.Base.{
  ℕ, zero, suc, ◌+◌, ◌≤◌, ◌<◌, ◌≡◌, refl, ap, sym, ◌∙◌, false, ◌==◌, some, none, List, [], ◌∷◌,
  ◌++◌, map, length, length-append, length-map, length-replicate, drop, replicate, arith,
}
use mathlib.Core.List.{append_assoc, map-append}
use c10k.Base.Memory.{Block, fill}
use c10k.Http.Reads.{Avoids}
use c10k.Http.Strings.{
  over, over_self, length-over, store-over, copy_at-over, Holds, strlen-Holds, over-Holds,
}
use c10k.Http.Print.{Avoids-append}
use c10k.Page.{literal, strnlen, strncat, bytes_of, send, sends, fresh}

pub length-fresh : (size : ℕ) → length (fresh size) ≡ size
unfolding fresh
length-fresh size = length-replicate size none

pub literal-Holds : (w : List ℕ) → Avoids 0 w → Holds (length w + 1) (literal w) w
literal-Holds w a = record {
  sized = omega (arith, length-append (map some w) (some 0 ∷ []), length-map w (λ (x : ℕ). some x));
  rest = [];
  shape = refl;
  clean = a;
}

strnlen-text :
    (w : List ℕ) (rest : Block ℕ) (n : ℕ)
    → Avoids 0 w
    → length w ≤ n
    → strnlen (map some w ++ some 0 ∷ rest) n ≡ some (length w)
unfolding strnlen
strnlen-text [] rest zero a h = refl
strnlen-text [] rest (suc n) a h = refl
strnlen-text (x ∷ w) rest zero a h = absurd (omega arith)
strnlen-text (x ∷ w) rest (suc n) (ne, a) h =
    let miss : (x == 0) ≡ false = ground arith in rw (strnlen-text w rest n a (omega arith), miss)

-- `strncat` of a whole string appends it, if the block has room for both.
pub strncat-Holds :
    {size from : ℕ} {dst src : Block ℕ} (u w : List ℕ) (n : ℕ)
    → Holds size dst u
    → Holds from src w
    → length w ≤ n
    → length u + length w < size
    → (out : Block ℕ) × (strncat dst src n ≡ some out) × Holds size out (u ++ w)
unfolding strncat
strncat-Holds {size} {src = src} u w n d s h fits =
    let base = map some u ++ some 0 ∷ d.rest in
    let room : length base ≡ size = ap length (sym d.shape) ∙ d.sized in
    let len = length-append u w in
    (
      over ((u ++ w) ++ 0 ∷ []) base,
      rw
          (
            strlen-Holds u d,
            s.shape,
            strnlen-text w s.rest n s.clean h,
            d.shape,
            sym (over_self u (some 0 ∷ d.rest)),
            copy_at-over u w base (some 0 ∷ s.rest) (length u) refl (omega arith),
            store-over (u ++ w) base (length u + length w) 0 (omega (arith, len))
                (omega (arith, len)),
          )
          (ap (λ b. some (over ((u ++ w) ++ 0 ∷ []) b)) (sym (over_self u (some 0 ∷ d.rest)))),
      over-Holds size (u ++ w) base (Avoids-append 0 u w d.clean s.clean) room (omega (arith, len)),
    )

bytes_of-text : (w : List ℕ) (rest : Block ℕ) → bytes_of (length w) (map some w ++ rest) ≡ some w
unfolding bytes_of
bytes_of-text [] rest = refl
bytes_of-text (x ∷ w) rest = rw (bytes_of-text w rest)

-- The string is what is sent.
pub send-Holds :
    {size : ℕ} {block : Block ℕ} (w : List ℕ) → Holds size block w → send block ≡ some (sends w)
unfolding send
send-Holds w h = rw (strlen-Holds w h, h.shape, bytes_of-text w (some 0 ∷ h.rest))

fill-over :
    (n v : ℕ) (cells : Block ℕ)
    → n ≤ length cells
    → fill n v cells ≡ some (over (replicate n v) cells)
unfolding fill
fill-over zero v cells h = refl
fill-over (suc n) v [] h = absurd (omega arith)
fill-over (suc n) v (c ∷ cells) h = rw (fill-over n v cells (omega arith))

-- A block filled with zeros holds the empty string.
pub fill-Holds :
    (n : ℕ) (cells : Block ℕ)
    → length cells ≡ suc n
    → (out : Block ℕ) × (fill (suc n) 0 cells ≡ some out) × Holds (suc n) out []
fill-Holds n cells e = (
  over (replicate (suc n) 0) cells,
  fill-over (suc n) 0 cells (omega arith),
  record {
    sized = length-over (replicate (suc n) 0) cells (omega (arith, length-replicate n zero)) ∙ e;
    rest = map some (replicate n 0) ++ drop (suc (length (replicate n 0))) cells;
    shape = refl;
    clean = tt;
  },
)

-- A text in front of a block that holds a string.
pub append-Holds :
    {size : ℕ} {block : Block ℕ} (u w : List ℕ)
    → Avoids 0 u
    → Holds size block w
    → Holds (length u + size) (map some u ++ block) (u ++ w)
append-Holds {block = block} u w a h = record {
  sized =
      omega (arith, length-append (map some u) block, length-map u (λ (x : ℕ). some x), h.sized);
  rest = h.rest;
  shape =
      rw (map-append some u w, append_assoc (map some u) (map some w) (some 0 ∷ h.rest))
        (ap (λ b. map some u ++ b) h.shape);
  clean = Avoids-append 0 u w a h.clean;
}
