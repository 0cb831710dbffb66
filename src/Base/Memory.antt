-- ===== src/Base/Memory.antt =====
-- C memory as the sources use it. A block is what one `malloc` returns, or one array: a list of
-- cells, `none` for a cell that was never written. `none` as a result is undefined behaviour: an
-- access outside the block, a read of a cell that was never written, or an access through NULL,
-- which is the empty block here since it gives access to nothing.
use Prim.Native.Nat.{ℕ, zero, suc, ◌*◌, ◌≤◌, ◌<◌}
use mathlib.Core.Path.{◌≡◌}
use mathlib.Core.Bool.{Bool, true}
use mathlib.Core.Option.{Option, none, some}
use mathlib.Core.List.{List, [], ◌∷◌}
use native.Mathlib.Omega.{arith}
use package.c10k.Base.Tests.{ltb, if◌then◌else◌}
use package.c10k.Base.Lists.{length, get_elem?, set, replicate}

infixl 5 ◌>>=◌ ◌>>◌
abbrev pub ◌>>=◌ {ℓ κ} : {A : Type ℓ} {B : Type κ} → Option A → (A → Option B) → Option B
none >>= f = none
some a >>= f = f a

abbrev pub ◌>>◌ {ℓ κ} : {A : Type ℓ} {B : Type κ} → Option A → Option B → Option B
m >> k = m >>= λ _. k

abbrev pub Block {ℓ} : Type ℓ → Type ℓ
Block A = List (Option A)

-- Whether `malloc` of that many bytes succeeds is up to the C library.
abbrev pub Malloc : Type 0
Malloc = ℕ → Bool

-- The C library gives every block of at most `n` bytes.
abbrev pub Gives : Malloc → ℕ → Type 0
Gives malloc n = (m : ℕ) → m ≤ n → malloc m ≡ true

module _ {ℓ} {A : Type ℓ} where
  -- `malloc(count * width)` for `count` cells of `width` bytes.
  abbrev pub allocate : Malloc → (width count : ℕ) → Block A
  allocate malloc width count = if malloc (count * width) then replicate count none else []

  abbrev pub join : Option (Option A) → Option A
  join none = none
  join (some c) = c

  unfoldable pub load : Block A → ℕ → Option A
  load cells i = join (get_elem? cells i)

  unfoldable pub store : Block A → ℕ → A → Option (Block A)
  store cells i v = if ltb i (length cells) then some (set cells i (some v)) else none

  -- `memset(dst, v, count)`, in cells.
  unfoldable pub fill : ℕ → A → Block A → Option (Block A)
  fill zero v cells = some cells
  fill (suc n) v [] = none
  fill (suc n) v (c ∷ cells) = do rest ← fill n v cells; some (some v ∷ rest)

  -- `memcpy(dst, src, count)`, in cells, for blocks that do not overlap.
  unfoldable pub copy : ℕ → Block A → Block A → Option (Block A)
  copy zero dst src = some dst
  copy (suc n) [] src = none
  copy (suc n) (c ∷ dst) [] = none
  copy (suc n) (c ∷ dst) (s ∷ src) = do rest ← copy n dst src; some (s ∷ rest)

  pub store-eq-some :
      (cells : Block A) (i : ℕ) (v : A)
      → i < length cells
      → store cells i v ≡ some (set cells i (some v))
  unfolding store
  store-eq-some cells i v h = ground arith

  pub allocate-eq-replicate :
      (malloc : Malloc) (width count : ℕ)
      → malloc (count * width) ≡ true
      → allocate malloc width count ≡ replicate count none
  allocate-eq-replicate malloc width count h = rw h
