-- ===== src/Http/Bounds.antt =====
-- http_str_to_header on a line without a colon.
use c10k.Base.{
  ℕ, zero, suc, ◌+◌, ◌≤◌, ◌<◌, ◌≡◌, ap, ◌∙◌, true, false, ◌⊎◌, none, some, [], ◌∷◌, List, length,
  arith, ltb, ◌==◌, Bool-cases, Option-cases, inl, inr,
}
use c10k.Base.Memory.{◌>>=◌, Block, load}
use c10k.Http.{Header, key_max, value_max, find, skip_spaces, trim_spaces, put_text, str_to_header}
use c10k.Http.Reads.{Reads, Avoids}

-- A search that finds nothing in the text ends right behind it, or at the end of the block.
find-Avoids :
    (str : Block ℕ) (c at : ℕ) (w : List ℕ)
    → Reads str at w
    → Avoids c w
    → (find str c (length w) at ≡ none) ⊎ (find str c (length w) at ≡ some (at + length w))
unfolding find
find-Avoids str c at [] r a = elim (Option-cases (load str at)) [
  | inl gone ↦ inl (rw gone)
  | inr (x, here) ↦ inr (rw here (ap some (omega arith)))
]
find-Avoids str c at (x ∷ w) (here, r) (ne, a) =
    let miss : (x == c) ≡ false = ground arith in
    elim (find-Avoids str c (at + 1) w r a) [
      | inl gone ↦ inl (rw (here, miss) gone)
      | inr there ↦ inr (rw (here, miss) (there ∙ ap some (omega arith)))
    ]

skip_spaces-le : (str : Block ℕ) (fuel at : ℕ) {s : ℕ} → skip_spaces str fuel at ≡ some s → at ≤ s
unfolding skip_spaces
skip_spaces-le str zero at e = absurd (ground (arith, e))
skip_spaces-le str (suc fuel) at e = elim (Option-cases (load str at)) [
  | inl gone ↦ absurd (ground (arith, gone, e))
  | inr (x, here) ↦ elim (Bool-cases (x == b' ')) [
    | inl hit ↦ let on = skip_spaces-le str fuel (at + 1) (rw (here, hit) at e) in omega arith
    | inr miss ↦ ground (arith, here, miss, e)
  ]
]

trim_spaces-le : (str : Block ℕ) (behind : ℕ) {s : ℕ} → trim_spaces str behind ≡ some s → s ≤ behind
unfolding trim_spaces
trim_spaces-le str zero e = absurd (ground (arith, e))
trim_spaces-le str (suc at) e = elim (Option-cases (load str at)) [
  | inl gone ↦ absurd (ground (arith, gone, e))
  | inr (x, here) ↦ elim (Bool-cases (x == b' ')) [
    | inl hit ↦ let on = trim_spaces-le str at (rw (here, hit) at e) in omega arith
    | inr miss ↦ ground (arith, here, miss, e)
  ]
]

put_text-negative :
    (dst str : Block ℕ) (start behind : ℕ) → behind < start → put_text dst str start behind ≡ none
unfolding put_text
put_text-negative dst str start behind h = let t : ltb behind start ≡ true = ground arith in rw t

-- On a text of less than 64 bytes with no colon in it, at any position of a block and whatever stands
-- behind it, http_str_to_header does not return -1: it is undefined.
pub str_to_header-no_colon :
    (dst : Header) (str : Block ℕ) (base : ℕ) (w : List ℕ)
    → Reads str base w
    → Avoids b':' w
    → length w < 64
    → str_to_header dst str base (length w) ≡ none
unfolding str_to_header
str_to_header-no_colon dst str base w r a short =
    let end = base + length w in
    let past : ltb end end ≡ false = ground arith in
    elim (find-Avoids str b':' base w r a) [
      | inl gone ↦ rw (gone, ◌>>=◌)
      | inr there ↦ elim (Option-cases (skip_spaces str (length str + 1) base)) [
        | inl gone ↦ rw (there, ◌>>=◌, past, gone)
        | inr (ks, s1) ↦ elim (Option-cases (trim_spaces str end)) [
          | inl gone ↦ rw (there, ◌>>=◌, past, s1, gone)
          | inr (ke, s2) ↦ elim (Option-cases (skip_spaces str (length str + 1) (end + 1))) [
            | inl gone ↦ rw (there, ◌>>=◌, past, s1, s2, gone)
            | inr (vs, s3) ↦
                let low = skip_spaces-le str (length str + 1) base s1 in
                let high = trim_spaces-le str end s2 in
                let late = skip_spaces-le str (length str + 1) (end + 1) s3 in
                let key_fits : ltb (key_max + ks) (ke + 1) ≡ false = ground arith in
                let value_fits : ltb (value_max + vs) (ke + 1) ≡ false = ground arith in
                let negative = put_text-negative dst.value str vs ke (omega arith) in
                elim (Option-cases (put_text dst.key str ks ke)) [
                  | inl gone ↦ rw (there, ◌>>=◌, past, s1, s2, s3, key_fits, value_fits, gone)
                  | inr (key, put) ↦
                      rw (there, ◌>>=◌, past, s1, s2, s3, key_fits, value_fits, put, negative)
                ]
          ]
        ]
      ]
    ]
