-- ===== src/Http/Parse.antt =====
-- `http_str_to_header` on a header line with any spaces round the key and the value.
use c10k.Base.{
  ℕ, zero, suc, ◌+◌, ◌<◌, ◌≡◌, refl, ap, subst, ◌∙◌, ◌≢◌, false, ◌||◌, some, List, [], ◌∷◌, ◌++◌,
  length, length-append, length-replicate, arith, ltb,
}
use c10k.Base.Memory.{Block, load}
use c10k.Http.{Header, success, find, skip_spaces, trim_spaces, str_to_header}
use c10k.Http.Reads.{
  Reads, Reads-append, Reads-spaces, Avoids, spaces, find-Reads, skip_spaces-Reads,
  trim_spaces-Reads, terminated, put_text-Reads,
}

-- A text that neither begins nor ends with a space.
pub record IsTrimmed (w : List ℕ) : Type 0 where
  pub first : ℕ
  pub rest : List ℕ
  pub begins : w ≡ first ∷ rest
  pub first_ne : first ≢ b' '
  pub front : List ℕ
  pub last : ℕ
  pub ends : w ≡ front ++ last ∷ []
  pub last_ne : last ≢ b' '

-- A trimmed text with spaces on both sides, `before` of them and `after`.
abbrev pub padded : (before after : ℕ) → List ℕ → List ℕ
padded before after w = spaces before ++ (w ++ spaces after)

length-spaces : (n : ℕ) → length (spaces n) ≡ n
unfolding spaces
length-spaces n = length-replicate n b' '

pub length-padded :
    (before after : ℕ) (w : List ℕ) → length (padded before after w) ≡ before + length w + after
length-padded before after w = omega (
  arith,
  length-append (spaces before) (w ++ spaces after),
  length-append w (spaces after),
  length-spaces before,
  length-spaces after,
)

-- What the loops find on both sides of a padded text at `at`.
record Trimmed (str : Block ℕ) (at before after : ℕ) (w : List ℕ) : Type 0 where
  skips : (fuel : ℕ) → before < fuel → skip_spaces str fuel at ≡ some (at + before)
  trims :
      (behind : ℕ)
      → behind ≡ at + before + length w + after
      → trim_spaces str behind ≡ some (at + before + length w)
  reads : Reads str (at + before) w

padded-Trimmed :
    (str : Block ℕ) (at before after : ℕ) (w : List ℕ)
    → IsTrimmed w
    → Reads str at (padded before after w)
    → Trimmed str at before after w
padded-Trimmed str at before after w t r = record {
  skips = λ fuel h.
      skip_spaces-Reads str fuel before at
        (Reads-append str at (spaces before) (w ++ spaces after) r).0 first_read t.first_ne h;
  trims = λ behind e.
      trim_spaces-Reads str after (at + before + length t.front) behind last_read t.last_ne
        (λ i h.
          subst (λ n. load str n ≡ some b' ') (omega (arith, len))
            (Reads-spaces str after (at + before + length w) i tail.1 h))
        (omega (arith, len))
      ∙ ap some (omega (arith, len));
  reads = tail.0;
}
  where
    body : Reads str (at + before) (w ++ spaces after)
    body =
        subst (λ n. Reads str n (w ++ spaces after)) (ap (λ n. at + n) (length-spaces before))
          ((Reads-append str at (spaces before) (w ++ spaces after) r).1)

    tail : Reads str (at + before) w × Reads str (at + before + length w) (spaces after)
    tail = Reads-append str (at + before) w (spaces after) body

    len : length w ≡ length t.front + 1
    len = ap length t.ends ∙ length-append t.front (t.last ∷ [])

    first_read : load str (at + before) ≡ some t.first
    first_read = (subst (Reads str (at + before)) t.begins (tail.0)).0

    last_read : load str (at + before + length t.front) ≡ some t.last
    last_read =
        ((Reads-append str (at + before) t.front (t.last ∷ [])
          (subst (Reads str (at + before)) t.ends (tail.0))).1
        ).0

load-lt : (str : Block ℕ) (i : ℕ) {x : ℕ} → load str i ≡ some x → i < length str
unfolding load
load-lt [] i e = cc
load-lt (c ∷ str) zero e = omega arith
load-lt (c ∷ str) (suc i) e = omega (arith, load-lt str i e)

Avoids-append : (c : ℕ) (u w : List ℕ) → Avoids c u → Avoids c w → Avoids c (u ++ w)
Avoids-append c [] w a b = b
Avoids-append c (x ∷ u) w (ne, a) b = (ne, Avoids-append c u w a b)

Avoids-spaces : (n : ℕ) → Avoids b':' (spaces n)
unfolding spaces
Avoids-spaces zero = tt
Avoids-spaces (suc n) = (omega arith, Avoids-spaces n)

-- A header line: key and value with any number of spaces round each.
pub record Line : Type 0 where
  pub key : List ℕ
  pub key_before : ℕ
  pub key_after : ℕ
  pub value : List ℕ
  pub value_before : ℕ
  pub value_after : ℕ

abbrev pub key_text : Line → List ℕ
key_text l = padded l.key_before l.key_after l.key

abbrev pub value_text : Line → List ℕ
value_text l = padded l.value_before l.value_after l.value

abbrev pub text : Line → List ℕ
text l = key_text l ++ b':' ∷ value_text l

-- The key has no colon, both are trimmed, and both fit their arrays with a NUL.
pub record IsLine (l : Line) : Type 0 where
  pub key_trimmed : IsTrimmed l.key
  pub value_trimmed : IsTrimmed l.value
  pub no_colon : Avoids b':' l.key
  pub key_fits : length l.key < 64
  pub value_fits : length l.value < 64

module _ (str : Block ℕ) (base : ℕ) (l : Line) (dst : Header) (is : IsLine l)
    (r : Reads str base (text l)) (key_room : length dst.key ≡ 64)
    (value_room : length dst.value ≡ 64) where
  halves :
      Reads str base (key_text l) × Reads str (base + length (key_text l)) (b':' ∷ value_text l)
  halves = Reads-append str base (key_text l) (b':' ∷ value_text l) r

  abbrev colon : ℕ
  colon = base + length (key_text l)

  find-colon : find str b':' (length (text l)) base ≡ some colon
  find-colon =
      find-Reads str b':' (length (text l)) base (key_text l) halves.0
        (Avoids-append b':' (spaces l.key_before) (l.key ++ spaces l.key_after)
          (Avoids-spaces l.key_before)
          (Avoids-append b':' l.key (spaces l.key_after) is.no_colon (Avoids-spaces l.key_after)))
        (halves.1.0) (omega (arith, length-append (key_text l) (b':' ∷ value_text l)))

  on_key : Trimmed str base l.key_before l.key_after l.key
  on_key = padded-Trimmed str base l.key_before l.key_after l.key is.key_trimmed halves.0

  on_value : Trimmed str (colon + 1) l.value_before l.value_after l.value
  on_value =
      padded-Trimmed str (colon + 1) l.value_before l.value_after l.value is.value_trimmed
        (halves.1.1)

  -- The first byte of a trimmed text that is read lies in the block.
  in_block : (at : ℕ) (w : List ℕ) → IsTrimmed w → Reads str at w → at < length str
  in_block at w t rd = load-lt str at ((subst (Reads str at) t.begins rd).0)

  total : base + length (text l) ≡ colon + 1 + l.value_before + length l.value + l.value_after
  total = omega (
    arith,
    length-append (key_text l) (b':' ∷ value_text l),
    length-padded l.value_before l.value_after l.value,
  )

  -- In a header line, key and value stand round a colon with any spaces round each, neither is
  -- empty, the key has no colon, and each has less than 64 bytes. `http_str_to_header` of the length
  -- of such a line, at any position of a block, returns 0 and stores key and value in its arrays of
  -- 64 without the spaces round them, each with a NUL behind it.
  pub str_to_header-line :
      str_to_header dst str base (length (text l))
      ≡ some
          (success, record { key = terminated l.key dst.key; value = terminated l.value dst.value })
  unfolding str_to_header
  str_to_header-line =
      let k0 = base + l.key_before in
      let v0 = colon + 1 + l.value_before in
      let len = length-padded l.key_before l.key_after l.key in
      let not_past : ltb (base + length (text l)) colon ≡ false = ground (arith, total) in
      let fits : (ltb (64 + k0) (k0 + length l.key + 1) || ltb (64 + v0) (v0 + length l.value + 1))
          ≡ false =
        ground (arith, is.key_fits, is.value_fits) in
      rw (
        find-colon,
        not_past,
        on_key.skips (length str + 1)
            (omega (arith, in_block k0 l.key is.key_trimmed on_key.reads)),
        on_key.trims colon (omega (arith, len)),
        on_value.skips (length str + 1)
            (omega (arith, in_block v0 l.value is.value_trimmed on_value.reads)),
        on_value.trims (base + length (text l)) total,
        fits,
        put_text-Reads dst.key str k0 (k0 + length l.key) l.key on_key.reads refl
            (omega (arith, key_room, is.key_fits)),
        put_text-Reads dst.value str v0 (v0 + length l.value) l.value on_value.reads refl
            (omega (arith, value_room, is.value_fits)),
      )
