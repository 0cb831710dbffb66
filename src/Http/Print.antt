-- ===== src/Http/Print.antt =====
-- `http_header_to_str`, and `http_str_to_header` on what it prints.
use c10k.Base.{
  ℕ, suc, ◌+◌, ◌-◌, ◌≤◌, ◌≡◌, refl, ap, subst, sym, ◌∙◌, ltb, false, Option, some, List, [], ◌∷◌,
  ◌++◌, map, length, length-append, arith,
}
use mathlib.Core.List.{append_assoc, append-nil}
use c10k.Base.Memory.{Block, load}
use c10k.Http.{Header, success, no_value, strlen, header_to_str, str_to_header}
use c10k.Http.Reads.{Reads, Avoids, terminated, spaces}
use c10k.Http.Parse.{Line, IsLine, text, str_to_header-line}
use c10k.Http.Strings.{over, store-over, copy-over, copy_at-over, Holds, strlen-Holds, over-Holds}

-- The text of a header.
unfoldable pub printed : (key value : List ℕ) → List ℕ
printed key value = key ++ b':' ∷ b' ' ∷ value

pub length-printed :
    (key value : List ℕ) → length (printed key value) ≡ length key + length value + 2
unfolding printed
length-printed key value = omega (arith, length-append key (b':' ∷ b' ' ∷ value))

pub Avoids-append : (c : ℕ) (u w : List ℕ) → Avoids c u → Avoids c w → Avoids c (u ++ w)
Avoids-append c [] w a b = b
Avoids-append c (x ∷ u) w (ne, a) b = (ne, Avoids-append c u w a b)

module _ {key_size value_size : ℕ} (header : Header) (key value : List ℕ) (dst : Block ℕ)
    (max_str_len : ℕ) (k : Holds key_size header.key key) (v : Holds value_size header.value value)
    (below : length key + length value + 3 ≤ max_str_len)
    (room : length key + length value + 3 ≤ length dst) where
  abbrev out : Block ℕ
  out = over (printed key value ++ 0 ∷ []) dst

  header_to_str-over : header_to_str dst header max_str_len ≡ some (no_value, out)
  unfolding header_to_str printed
  header_to_str-over =
      let within : ltb max_str_len (length key + length value + 3) ≡ false = ground arith in
      let one = length-append key (b':' ∷ []) in
      let two = length-append (key ++ b':' ∷ []) (b' ' ∷ []) in
      let three = length-append ((key ++ b':' ∷ []) ++ b' ' ∷ []) value in
      rw
        (
          strlen-Holds key k,
          strlen-Holds value v,
          within,
          k.shape,
          v.shape,
          copy-over key dst (some 0 ∷ k.rest) (omega arith),
          store-over key dst (length key) b':' refl (omega arith),
          store-over (key ++ b':' ∷ []) dst (length key + 1) b' ' (omega (arith, one))
              (omega (arith, one)),
          copy_at-over ((key ++ b':' ∷ []) ++ b' ' ∷ []) value dst (some 0 ∷ v.rest)
              (length key + 2) (omega (arith, one, two)) (omega (arith, one, two)),
          store-over (((key ++ b':' ∷ []) ++ b' ' ∷ []) ++ value) dst
              (length key + length value + 3 - 1) 0 (omega (arith, one, two, three))
              (omega (arith, one, two, three)),
        )
        (ap (λ w. some (no_value, over (w ++ 0 ∷ []) dst))
          (append_assoc (key ++ b':' ∷ []) (b' ' ∷ []) value
            ∙ append_assoc key (b':' ∷ []) (b' ' ∷ value)))

  clean : Avoids 0 (printed key value)
  unfolding printed
  clean = Avoids-append 0 key (b':' ∷ b' ' ∷ value) k.clean (omega arith, (omega arith, v.clean))

  -- `http_header_to_str` writes "key: value" as a string, and returns no value.
  pub header_to_str-Holds :
      (block : Block ℕ) × (header_to_str dst header max_str_len ≡ some (no_value, block))
      × Holds (length dst) block (printed key value)
  header_to_str-Holds = (
    out,
    header_to_str-over,
    over-Holds (length dst) (printed key value) dst clean refl
        (omega (arith, length-printed key value)),
  )

Reads-cons :
    (c : Option ℕ) (str : Block ℕ) (at : ℕ) (w : List ℕ)
    → Reads str at w
    → Reads (c ∷ str) (at + 1) w
unfolding load
Reads-cons c str at [] r = tt
Reads-cons c str at (x ∷ w) (here, r) =
    (subst (λ n. load (c ∷ str) n ≡ some x) (add_one at) here, Reads-cons c str (at + 1) w r)
  where
    add_one : (n : ℕ) → suc n ≡ n + 1
    add_one n = omega arith

pub Reads-map : (w : List ℕ) (rest : Block ℕ) → Reads (map some w ++ rest) 0 w
unfolding load
Reads-map [] rest = tt
Reads-map (x ∷ w) rest = (
  refl,
  subst (λ n. Reads (map some (x ∷ w) ++ rest) n w) (omega arith)
      (Reads-cons (some x) (map some w ++ rest) 0 w (Reads-map w rest)),
)

-- The line that stands in the text of a header.
abbrev pub plain : (key value : List ℕ) → Line
plain key value = record {
  key = key;
  key_before = 0;
  key_after = 0;
  value = value;
  value_before = 1;
  value_after = 0;
}

pub printed-eq-text : (key value : List ℕ) → printed key value ≡ text (plain key value)
unfolding printed spaces
printed-eq-text key value = rw (append-nil key, append-nil value)

-- A key and a value that are not empty and neither begin nor end with a space, the key with no
-- colon in it, each of less than 64 bytes, none of them 0, and stored with a NUL behind it in an
-- array of 64. If `dst` has, and `max_str_len` allows, 3 bytes more than the two texts, then
-- `http_header_to_str` writes a string of 2 bytes more than the two texts into `dst`, and
-- `http_str_to_header` of that length at `dst` returns 0 and stores the same key and the same value,
-- each with a NUL behind it, in any header with arrays of 64.
pub str_to_header-header_to_str :
    (header old : Header) (key value : List ℕ) (dst : Block ℕ) (max_str_len : ℕ)
    → Holds 64 header.key key
    → Holds 64 header.value value
    → IsLine (plain key value)
    → length old.key ≡ 64
    → length old.value ≡ 64
    → length key + length value + 3 ≤ max_str_len
    → length key + length value + 3 ≤ length dst
    → (block : Block ℕ) × (header_to_str dst header max_str_len ≡ some (no_value, block))
      × (strlen block ≡ some (length key + length value + 2))
      × (str_to_header old block 0 (length key + length value + 2)
          ≡ some (
            success,
            record { key = terminated key old.key; value = terminated value old.value },
          ))
str_to_header-header_to_str header old key value dst max_str_len k v is key_room value_room below
      room =
    let (block, prints, h) = header_to_str-Holds header key value dst max_str_len k v below room in
    let len = length-printed key value in
    let reads : Reads block 0 (text (plain key value)) =
      subst (λ w. Reads block 0 w) (printed-eq-text key value)
        (subst (λ b. Reads b 0 (printed key value)) (sym h.shape)
          (Reads-map (printed key value) (some 0 ∷ h.rest))) in
    let same : length (text (plain key value)) ≡ length key + length value + 2 =
      ap length (sym (printed-eq-text key value)) ∙ len in
    (
      block,
      prints,
      strlen-Holds (printed key value) h ∙ ap some len,
      subst
          (λ n.
            str_to_header old block 0 n
            ≡ some (
              success,
              record { key = terminated key old.key; value = terminated value old.value },
            ))
          same (str_to_header-line block 0 (plain key value) old is reads key_room value_room),
    )
