-- ===== src/Http/Reads.antt =====
-- Text in a block, and the scanning loops of http.c on it.
use c10k.Base.{
  ℕ, zero, suc, ◌+◌, ◌-◌, ◌≤◌, ◌<◌, ◌≡◌, refl, ap, subst, ◌∙◌, ◌≢◌, false, none, some, List, [],
  ◌∷◌, ◌++◌, map, length, drop, set, replicate, arith, ltb, ◌==◌,
}
use c10k.Base.Memory.{Block, load, copy, store-eq-some}
use c10k.Http.{find, skip_spaces, trim_spaces, put_text}

-- The bytes from `at` on are `w`.
abbrev pub Reads : Block ℕ → ℕ → List ℕ → Type 0
Reads str at [] = Unit
Reads str at (x ∷ w) = (load str at ≡ some x) × Reads str (at + 1) w

pub Reads-append :
    (str : Block ℕ) (at : ℕ) (u w : List ℕ)
    → Reads str at (u ++ w)
    → Reads str at u × Reads str (at + length u) w
Reads-append str at [] w r = (tt, subst (λ n. Reads str n w) (omega arith) r)
Reads-append str at (x ∷ u) w (here, r) =
    let (front, back) = Reads-append str (at + 1) u w r in
    ((here, front), subst (λ n. Reads str n w) (omega arith) back)

-- No byte of the text is `c`.
abbrev pub Avoids : ℕ → List ℕ → Type 0
Avoids c [] = Unit
Avoids c (x ∷ w) = (x ≢ c) × Avoids c w

unfoldable pub spaces : ℕ → List ℕ
spaces n = replicate n b' '

pub find-Reads :
    (str : Block ℕ) (c left at : ℕ) (w : List ℕ)
    → Reads str at w
    → Avoids c w
    → load str (at + length w) ≡ some c
    → length w ≤ left
    → find str c left at ≡ some (at + length w)
unfolding find
find-Reads str c zero at [] r a stop h =
    let here : load str at ≡ some c = subst (λ n. load str n ≡ some c) (omega arith) stop in
    rw here (ap some (omega arith))
find-Reads str c (suc left) at [] r a stop h =
    let here : load str at ≡ some c = subst (λ n. load str n ≡ some c) (omega arith) stop in
    ground (arith, here)
find-Reads str c zero at (x ∷ w) r a stop h = absurd (omega arith)
find-Reads str c (suc left) at (x ∷ w) (here, r) (ne, a) stop h =
    let miss : (x == c) ≡ false = ground arith in
    rw (here, miss)
      (find-Reads str c left (at + 1) w r a (subst (λ n. load str n ≡ some c) (omega arith) stop)
          (omega arith)
        ∙ ap some (omega arith))

pub skip_spaces-Reads :
    (str : Block ℕ) (fuel n at : ℕ) {x : ℕ}
    → Reads str at (spaces n)
    → load str (at + n) ≡ some x
    → x ≢ b' '
    → n < fuel
    → skip_spaces str fuel at ≡ some (at + n)
unfolding skip_spaces spaces
skip_spaces-Reads str zero n at r stop ne h = absurd (omega arith)
skip_spaces-Reads str (suc fuel) zero at {x} r stop ne h =
    let here : load str at ≡ some x = subst (λ m. load str m ≡ some x) (omega arith) stop in
    let miss : (x == b' ') ≡ false = ground arith in rw (here, miss) (ap some (omega arith))
skip_spaces-Reads str (suc fuel) (suc n) at {x} (here, r) stop ne h = rw here (
    skip_spaces-Reads str fuel n (at + 1) r (subst (λ m. load str m ≡ some x) (omega arith) stop) ne
      (omega arith)
    ∙ ap some (omega arith))

-- Backwards over `n` spaces to the last byte before them.
pub trim_spaces-Reads :
    (str : Block ℕ) (n at behind : ℕ) {x : ℕ}
    → load str at ≡ some x
    → x ≢ b' '
    → ((i : ℕ) → i < n → load str (at + 1 + i) ≡ some b' ')
    → behind ≡ at + 1 + n
    → trim_spaces str behind ≡ some (at + 1)
unfolding trim_spaces
trim_spaces-Reads str zero at zero stop ne r e = absurd (omega arith)
trim_spaces-Reads str zero at (suc behind) {x} stop ne r e =
    let here : load str behind ≡ some x = subst (λ m. load str m ≡ some x) (omega arith) stop in
    let miss : (x == b' ') ≡ false = ground arith in rw (here, miss) (ap some (omega arith))
trim_spaces-Reads str (suc n) at zero stop ne r e = absurd (omega arith)
trim_spaces-Reads str (suc n) at (suc behind) stop ne r e =
    let here : load str behind ≡ some b' ' =
      subst (λ m. load str m ≡ some b' ') (omega arith) (r n (omega arith)) in
    rw here (trim_spaces-Reads str n at behind stop ne (λ i h. r i (omega arith)) (omega arith))

pub Reads-spaces :
    (str : Block ℕ) (n at i : ℕ) → Reads str at (spaces n) → i < n → load str (at + i) ≡ some b' '
unfolding spaces
Reads-spaces str zero at i r h = absurd (omega arith)
Reads-spaces str (suc n) at zero (here, r) h =
    subst (λ m. load str m ≡ some b' ') (omega arith) here
Reads-spaces str (suc n) at (suc i) (here, r) h =
    subst (λ m. load str m ≡ some b' ') (omega arith)
      (Reads-spaces str n (at + 1) i r (omega arith))

-- The text, and what stood behind it, after `memcpy`.
drop-load :
    (str : Block ℕ) (at : ℕ) {x : ℕ}
    → load str at ≡ some x
    → drop at str ≡ some x ∷ drop (suc at) str
unfolding load
drop-load [] at e = cc
drop-load (none ∷ str) zero e = cc
drop-load (some c ∷ str) zero e = ap (λ k. k ∷ str) e
drop-load (c ∷ str) (suc at) e = drop-load str at e

copy-Reads :
    (dst str : Block ℕ) (at : ℕ) (w : List ℕ)
    → Reads str at w
    → length w ≤ length dst
    → copy (length w) dst (drop at str) ≡ some (map some w ++ drop (length w) dst)
unfolding copy
copy-Reads dst str at [] r h = refl
copy-Reads [] str at (x ∷ w) r h = absurd (omega arith)
copy-Reads (d ∷ dst) str at (x ∷ w) (here, r) h =
    let e : suc at ≡ at + 1 = omega arith in
    let next : drop (suc at) str ≡ drop (at + 1) str = ap (λ n. drop n str) e in
    rw (drop-load str at here, next, copy-Reads dst str (at + 1) w r (omega arith))

set-behind :
    (w : List ℕ) (dst : Block ℕ) (v : ℕ)
    → length w < length dst
    → set (map some w ++ drop (length w) dst) (length w) (some v)
      ≡ map some w ++ some v ∷ drop (suc (length w)) dst
set-behind [] [] v h = absurd (omega arith)
set-behind [] (d ∷ dst) v h = refl
set-behind (x ∷ w) [] v h = absurd (omega arith)
set-behind (x ∷ w) (d ∷ dst) v h = ap (λ l. some x ∷ l) (set-behind w dst v (omega arith))

length-behind :
    (w : List ℕ) (dst : Block ℕ)
    → length w ≤ length dst
    → length (map some w ++ drop (length w) dst) ≡ length dst
length-behind [] dst h = refl
length-behind (x ∷ w) [] h = absurd (omega arith)
length-behind (x ∷ w) (d ∷ dst) h = ap suc (length-behind w dst (omega arith))

-- A NUL-terminated text at the start of an array.
abbrev pub terminated : List ℕ → Block ℕ → Block ℕ
terminated w dst = map some w ++ some 0 ∷ drop (suc (length w)) dst

pub put_text-Reads :
    (dst str : Block ℕ) (start behind : ℕ) (w : List ℕ)
    → Reads str start w
    → behind ≡ start + length w
    → length w < length dst
    → put_text dst str start behind ≡ some (terminated w dst)
unfolding put_text
put_text-Reads dst str start behind w r e h =
    let t : ltb behind start ≡ false = ground arith in
    let len : behind - start ≡ length w = omega arith in
    let copied = map some w ++ drop (length w) dst in
    rw
      (
        t,
        len,
        copy-Reads dst str start w r (omega arith),
        store-eq-some copied (length w) 0 (omega (arith, length-behind w dst (omega arith))),
      )
      (ap some (set-behind w dst 0 h))
