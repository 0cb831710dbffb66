-- ===== src/Page.antt =====
-- apps/Run_unix_srv.c: `html_answer`, which answers a request for the root page with a list of the
-- request's headers, and `client_event`. The two buffers of 4096 characters and the array of 48
-- headers start unwritten; `&out_buf[4]` is the block without its first 4 cells, which are put back
-- in front. What `printf` logs is left out.
pub mod Strings
pub mod Scan
pub mod Items
pub mod Response
pub mod Answers
mod Tests
use Prim.Native.Char.{code}
use Prim.Native.String.{String}
use c10k.Base.{
  ℕ, zero, suc, ◌+◌, ◌-◌, ◌/◌, ◌%◌, bit_and, true, false, ◌&&◌, Option, none, some, List, [], ◌∷◌,
  ◌++◌, map, length, take, drop, replicate, get_elem?, ltb, ◌==◌, if◌then◌else◌,
}
use c10k.Base.Memory.{◌>>=◌, Block, load, store, fill, copy}
use c10k.Calc.{Received, error, bytes, unpack_event, epollin}
use c10k.Http.{Header, find, strlen, strcpy, copy_at, header_to_str, str_to_headers}

abbrev codes : String → List ℕ
codes String.[] = []
codes (String.◌∷◌ c s) = code c ∷ codes s

abbrev pub buffer_size : ℕ
buffer_size = 4096

abbrev pub header_buffer_size : ℕ
header_buffer_size = 48

-- A local array, not written yet.
pub fresh : (size : ℕ) → Block ℕ
fresh size = replicate size none

-- A string literal: an array with a NUL at the end.
abbrev pub literal : List ℕ → Block ℕ
literal w = map some w ++ some 0 ∷ []

unfoldable pub not_found : List ℕ
not_found = codes "HTTP/1.1 404 Not Found" ++ 13 ∷ 10 ∷ codes "Connection: close"

unfoldable pub item_begin : List ℕ
item_begin = codes "<li>"

unfoldable pub item_end : List ℕ
item_end = codes "</li>"

unfoldable pub html_page_begin : List ℕ
html_page_begin =
    codes
      "<!DOCTYPE html><html><h1>Welcome Sverre!</h1><p>These are the headers you sent me:</p><ul>"

unfoldable pub html_page_end : List ℕ
html_page_end = codes "</ul></html>"

-- `%zd`: a `size_t` has at most 20 digits.
pub digits : (count : ℕ) → ℕ → List ℕ
digits zero n = []
digits (suc count) n =
    let front = digits count (n / 10) in
    if ltb n 10 then (b'0' + n) ∷ [] else front ++ (b'0' + n % 10) ∷ []

unfoldable pub head_front : List ℕ
head_front =
    codes "HTTP/1.1 200 OK"
    ++ 13 ∷ 10 ∷ (codes "Content-Type: text/html" ++ 13 ∷ 10 ∷ codes "Content-Length: ")

unfoldable pub head_back : List ℕ
head_back = 13 ∷ 10 ∷ (codes "Connection: close" ++ 13 ∷ 10 ∷ 13 ∷ 10 ∷ [])

-- The text that `sprintf` puts into `response`.
pub head : (content_length : ℕ) → List ℕ
head content_length = head_front ++ (digits 20 content_length ++ head_back)

-- The number of characters before the NUL, and at most `n`.
pub strnlen : Block ℕ → (n : ℕ) → Option ℕ
strnlen cells zero = some 0
strnlen [] (suc n) = none
strnlen (none ∷ cells) (suc n) = none
strnlen (some c ∷ cells) (suc n) = do
  let rest = strnlen cells n
  if c == 0 then some 0 else (do m ← rest; some (suc m))

-- `strncat(dst, src, n)`
pub strncat : (dst src : Block ℕ) → (n : ℕ) → Option (Block ℕ)
strncat dst src n = do
  at ← strlen dst
  count ← strnlen src n
  copied ← copy_at at count dst src
  store copied (at + count) 0

-- The bytes of `send(fd, block, n, 0)`.
pub bytes_of : (n : ℕ) → Block ℕ → Option (List ℕ)
bytes_of zero cells = some []
bytes_of (suc n) [] = none
bytes_of (suc n) (none ∷ cells) = none
bytes_of (suc n) (some c ∷ cells) = do rest ← bytes_of n cells; some (c ∷ rest)

-- What is sent to the client.
pub data Answer : Type 0 where
  silent : Answer
  sends : List ℕ → Answer

-- `send(fd, block, strlen(block), 0)`
pub send : Block ℕ → Option Answer
send cells = do n ← strlen cells; w ← bytes_of n cells; some (sends w)

-- `while (in_buf[at] != '\r') ++at`. The fuel is the size of the buffer and one more: the read
-- behind it faults.
pub line_end : Block ℕ → (fuel at : ℕ) → Option ℕ
line_end in_buf zero at = none
line_end in_buf (suc fuel) at = do
  x ← load in_buf at
  let rest = line_end in_buf fuel (at + 1)
  if x == 13 then some at else rest

-- The scan to the end of the headers. Each round moves `header_end` by 2 at least, so the fuel need
-- not be more than `bytes_read + 1`.
pub headers_end : Block ℕ → (bytes_read fuel header_end : ℕ) → Option ℕ
headers_end in_buf bytes_read zero header_end = none
headers_end in_buf bytes_read (suc fuel) header_end = elim (ltb header_end bytes_read) [
  | false ↦ some header_end
  | true ↦ do
    at ← find in_buf 13 (bytes_read - header_end) header_end
    x1 ← load in_buf (at + 1)
    x2 ← load in_buf (at + 2)
    x3 ← load in_buf (at + 3)
    let rest = headers_end in_buf bytes_read fuel (at + 2)
    if x1 == 10 && x2 == 13 && x3 == 10 then some at else rest
]

-- One round of the loop over the headers: `out_buf` and `in_buf` after it.
pub list_item : Header → (in_buf out_buf : Block ℕ) → Option (Block ℕ × Block ℕ)
list_item header in_buf out_buf = do
  out1 ← strcpy out_buf (literal item_begin)
  (_, text) ← header_to_str (drop 4 out1) header (buffer_size - 4)
  out2 ← strncat (take 4 out1 ++ text) (literal item_end) 6
  n ← strlen out2
  in1 ← strncat in_buf out2 n
  some (in1, out2)

-- The loop, for the `left` headers from index `i` on.
pub list_items :
    List Header → (left i : ℕ) → (in_buf out_buf : Block ℕ) → Option (Block ℕ × Block ℕ)
list_items headers zero i in_buf out_buf = some (in_buf, out_buf)
list_items headers (suc left) i in_buf out_buf = do
  header ← get_elem? headers i
  (in1, out1) ← list_item header in_buf out_buf
  list_items headers left (i + 1) in1 out1

-- The response and the page, for the list of headers in `in_buf`.
pub send_page : (in_buf out_buf : Block ℕ) → Option Answer
send_page in_buf out_buf = do
  headers_len ← strlen in_buf
  response ←
      strcpy (fresh 128)
        (literal (head (length html_page_begin + headers_len + length html_page_end - 1)))
  out1 ← strcpy out_buf response
  out2 ← strncat out1 (literal html_page_begin) (length html_page_begin)
  out3 ← strncat out2 in_buf headers_len
  out4 ← strncat out3 (literal html_page_end) (length html_page_end)
  send out4

abbrev pub unwritten : Header
unwritten = record { key = replicate 64 none; value = replicate 64 none }

pub header_buffer : List Header
header_buffer = replicate header_buffer_size unwritten

-- From the search for the first line's end on, with `bytes_read` bytes received.
pub answer_page : (in_buf : Block ℕ) (bytes_read : ℕ) → Option Answer
answer_page in_buf bytes_read = do
  first ← line_end in_buf (buffer_size + 1) 0
  let header_start = first + 2
  header_end ← headers_end in_buf bytes_read (bytes_read + 1) header_start
  (header_count, headers) ←
      str_to_headers header_buffer header_buffer_size in_buf header_start
        (header_end - header_start)
  cleared ← fill buffer_size 0 in_buf
  (in1, out1) ← list_items headers header_count 0 cleared (fresh buffer_size)
  send_page in1 out1

-- After an error `bytes_read` is -1, and the NUL is written in front of the buffer.
pub html_answer : Received → Option Answer
html_answer error = none
html_answer (bytes w) = do
  copied ← copy (length w) (fresh buffer_size) (map some w)
  in_buf ← store copied (length w) 0
  if length w == 0 then some silent else do
    x ← load in_buf 5
    if x == b' '
        then answer_page in_buf (length w)
        else (do out ← strcpy (fresh buffer_size) (literal not_found); send out)

-- `client_event`: what is sent for an event, `received` being what `recv` returns if it is called.
pub client_event : (args : ℕ) → (received : Received) → Option Answer
client_event args received =
    let (client, event_flag) = unpack_event args in
    if bit_and event_flag epollin == 0 then some silent else html_answer received
