-- ===== src/Http.antt =====
-- src/unix/http.c, include/unix/http.h: HTTP headers as text.
-- A pointer into a string is a block of bytes and a position in it, so that `&str[n]` is a larger
-- position in the same block. An `int` that counts from the pointer is kept as the position it
-- stands for; `key_end` and `val_end`, which can reach -1, as the position behind.
-- Texts are shorter than 2 ^ 31 bytes, so no `int` of these functions overflows.
pub mod Reads
pub mod Parse
pub mod Bounds
pub mod Headers
pub mod Strings
pub mod Print
mod Tests
use c10k.Base.{
  ℕ, zero, suc, ◌+◌, ◌-◌, Bool, true, false, ◌&&◌, ◌||◌, Option, none, some, List, [], ◌∷◌, length,
  set, drop, get_elem?, ltb, ◌==◌, if◌then◌else◌,
}
use c10k.Base.Memory.{◌>>=◌, Block, load, store, copy}

abbrev pub key_max : ℕ
key_max = 64

abbrev pub value_max : ℕ
value_max = 64

-- `http_header`: two arrays of 64 characters.
pub record Header : Type 0 where
  pub key : Block ℕ
  pub value : Block ℕ

-- What the parser returns: 0 or -1.
pub data Status : Type 0 where
  success failure : Status

-- `enum http_method`
pub data Method : Type 0 where
  get head post put delete connect options trace patch : Method

-- `enum http_version`
pub data Version : Type 0 where
  http_1_0 http_1_1 http_2_0 http_3_0 : Version

-- `http_request` and `http_response`, which have the same members. A pointer is a block here.
pub record Message : Type 0 where
  pub request : Method
  pub protocol_version : Version
  pub path : Block ℕ
  pub headers : List Header
  pub header_count : ℕ
  pub content : Block ℕ
  pub data_len : ℕ

-- `http_request_destroy` and `http_response_destroy` give the three blocks back.
pub destroy : Message → Message
destroy m = record m { content = []; headers = []; path = [] }

-- `strlen`
pub strlen : Block ℕ → Option ℕ
strlen [] = none
strlen (none ∷ cells) = none
strlen (some c ∷ cells) = do
  let rest = strlen cells
  if c == 0 then some 0 else (do n ← rest; some (suc n))

-- `memcpy(&dst[offset], src, count)`
pub copy_at : (offset count : ℕ) → (dst src : Block ℕ) → Option (Block ℕ)
copy_at zero count dst src = copy count dst src
copy_at (suc offset) count [] src = none
copy_at (suc offset) count (d ∷ dst) src = do rest ← copy_at offset count dst src; some (d ∷ rest)

-- `strcpy(dst, src)`: the characters and the NUL behind them.
pub strcpy : (dst src : Block ℕ) → Option (Block ℕ)
strcpy dst src = do n ← strlen src; copy (suc n) dst src

-- The two lengths that `http_header_set` computes are not used; both are read off `key`.
pub header_set : Header → (key value : Block ℕ) → Option (Status × Header)
header_set dst key value = do
  _ ← strlen key
  key' ← strcpy dst.key key
  value' ← strcpy dst.value value
  some (success, record { key = key'; value = value' })

-- `while (str[at] != c && at < end) ++at`, with `left` positions before the end: the character at
-- the end is read too.
pub find : Block ℕ → (c left at : ℕ) → Option ℕ
find str c zero at = do _ ← load str at; some at
find str c (suc left) at = do x ← load str at; if x == c then some at else find str c left (at + 1)

-- `while (str[at] == ' ') ++at`. The fuel is the number of bytes of the block and one more: the
-- read behind the last byte faults.
pub skip_spaces : Block ℕ → (fuel at : ℕ) → Option ℕ
skip_spaces str zero at = none
skip_spaces str (suc fuel) at = do
  x ← load str at
  if x == b' ' then skip_spaces str fuel (at + 1) else some at

-- `while (str[end] == ' ') --end`, for the position behind `end`.
pub trim_spaces : Block ℕ → (behind : ℕ) → Option ℕ
trim_spaces str zero = none
trim_spaces str (suc at) = do
  x ← load str at
  if x == b' ' then trim_spaces str at else some (suc at)

-- `memcpy(dst, &str[start], len)` and `dst[len] = '\0'`, for `len` from `start` to `behind`. A
-- negative length is a huge `size_t`.
pub put_text : (dst str : Block ℕ) → (start behind : ℕ) → Option (Block ℕ)
put_text dst str start behind =
    if ltb behind start
    then none
    else do copied ← copy (behind - start) dst (drop start str); store copied (behind - start) 0

-- `http_str_to_header(dst, &str[base], str_len)`
pub str_to_header : Header → Block ℕ → (base str_len : ℕ) → Option (Status × Header)
str_to_header dst str base str_len = do
  colon ← find str b':' str_len base
  if ltb (base + str_len) colon then some (failure, dst) else do
    key_start ← skip_spaces str (length str + 1) base
    key_end ← trim_spaces str colon
    val_start ← skip_spaces str (length str + 1) (colon + 1)
    val_end ← trim_spaces str (base + str_len)
    if ltb (key_max + key_start) (key_end + 1) || ltb (value_max + val_start) (val_end + 1)
        then some (failure, dst)
        else do
          key ← put_text dst.key str key_start key_end
          value ← put_text dst.value str val_start val_end
          some (success, record { key = key; value = value })

-- What `http_header_to_str` returns: -1, or nothing, since it ends with no `return`.
pub data Printed : Type 0 where
  too_long no_value : Printed

pub header_to_str : (dst : Block ℕ) → Header → (max_str_len : ℕ) → Option (Printed × Block ℕ)
header_to_str dst header max_str_len = do
  key_len ← strlen header.key
  val_len ← strlen header.value
  let total_length = key_len + val_len + 3
  if ltb max_str_len total_length then some (too_long, dst) else do
    dst1 ← copy key_len dst header.key
    dst2 ← store dst1 key_len b':'
    dst3 ← store dst2 (key_len + 1) b' '
    dst4 ← copy_at (key_len + 2) val_len dst3 header.value
    dst5 ← store dst4 (total_length - 1) 0
    some (no_value, dst5)

is_success : Status → Bool
is_success success = true
is_success failure = false

-- The second loop of `http_str_to_headers(dst, dst_size, &str[base], str_len)`. Each round moves
-- `header_end` by 2 at least, so the fuel need not be more than `str_len + 1`.
pub headers_loop :
    Block ℕ
    → (base str_len dst_size fuel header_index header_start header_end : ℕ) → List Header
    → Option (ℕ × List Header)
headers_loop str base str_len dst_size zero header_index header_start header_end dst = none
headers_loop str base str_len dst_size (suc fuel) header_index header_start header_end dst =
    elim (ltb header_start (base + str_len) && ltb header_index dst_size) [
      | false ↦ some (header_index, dst)
      | true ↦ do
        old ← get_elem? dst header_index
        (err, new) ← str_to_header old str header_start (header_end - header_start)
        let next_start = header_end + 2
        next_end ← find str 13 (base + str_len + 1 - next_start) next_start
        headers_loop str base str_len dst_size fuel
            (if is_success err then header_index + 1 else header_index) next_start next_end
            (set dst header_index new)
    ]

pub str_to_headers :
    List Header → (dst_size : ℕ) → Block ℕ → (base str_len : ℕ) → Option (ℕ × List Header)
str_to_headers dst dst_size str base str_len = do
  header_end ← find str 13 str_len base
  headers_loop str base str_len dst_size (str_len + 1) 0 base header_end dst
