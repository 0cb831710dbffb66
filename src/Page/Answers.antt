-- ===== src/Page/Answers.antt =====
-- What `html_answer` sends, from the received bytes on.
use c10k.Base.{
  ℕ, zero, suc, ◌+◌, ◌-◌, ◌≤◌, ◌<◌, ◌≡◌, refl, ap, ◌∙◌, subst, false, true, ltb, ◌==◌, Option, some,
  none, List, [], ◌∷◌, ◌++◌, map, length, length-append, replicate, get_elem?, arith,
}
use mathlib.Core.List.{append-nil}
use c10k.Base.Memory.{Block, load, copy, store}
use c10k.Calc.{bytes}
use c10k.Http.{Header, find, str_to_headers}
use c10k.Http.Reads.{Reads, Reads-append, Avoids, find-Reads}
use c10k.Http.Strings.{over, length-over, store-over, copy-over}
use c10k.Http.Parse.{Line}
use c10k.Http.Print.{Reads-map}
use c10k.Http.Headers.{
  broken, AllLines, AllRoom, HasRoom, filled, length-broken, text_pos, lines-le-broken,
  str_to_headers-lines,
}
use c10k.Page.{
  sends, fresh, html_page_begin, html_page_end, head, unwritten, header_buffer, headers_end,
  answer_page, html_answer,
}
use c10k.Page.Strings.{length-fresh, fill-Holds}
use c10k.Page.Scan.{Reads-get_elem?, line_end-Reads, headers_end-lines}
use c10k.Page.Items.{items, AllClean, filled-Stores, list_items-Holds}
use c10k.Page.Response.{body, page, send_page-Holds}

items-le-page : (lines : List Line) → length (items lines) ≤ length (page lines)
unfolding page body
items-le-page lines = omega (
  arith,
  length-append (head (length (body lines) - 1)) (body lines),
  length-append html_page_begin (items lines ++ html_page_end),
  length-append (items lines) html_page_end,
)

length-header_buffer : length header_buffer ≡ 48
unfolding header_buffer
length-header_buffer = refl

replicate-AllRoom : (n : ℕ) (h : Header) → HasRoom h → AllRoom (replicate n h)
replicate-AllRoom zero h r = tt
replicate-AllRoom (suc n) h r = (r, replicate-AllRoom n h r)

header_buffer-AllRoom : AllRoom header_buffer
unfolding header_buffer
header_buffer-AllRoom = replicate-AllRoom 48 unwritten (refl, refl)

get_elem?-lt : (w : List ℕ) (i : ℕ) {x : ℕ} → get_elem? w i ≡ some x → i < length w
get_elem?-lt [] i e = cc
get_elem?-lt (c ∷ w) zero e = omega arith
get_elem?-lt (c ∷ w) (suc i) e = omega (arith, get_elem?-lt w i e)

-- What `recv` and the store of the NUL leave in `in_buf`.
abbrev received : List ℕ → Block ℕ
received w = over (w ++ 0 ∷ []) (fresh 4096)

module _ (w : List ℕ) (fits : length w < 4096) where
  copy-received : copy (length w) (fresh 4096) (map some w) ≡ some (over w (fresh 4096))
  copy-received =
      subst (λ src. copy (length w) (fresh 4096) src ≡ some (over w (fresh 4096)))
        (append-nil (map some w)) (copy-over w (fresh 4096) [] (omega (arith, length-fresh 4096)))

  store-received : store (over w (fresh 4096)) (length w) 0 ≡ some (received w)
  store-received = store-over w (fresh 4096) (length w) 0 refl (omega (arith, length-fresh 4096))

  received-Reads : Reads (received w) 0 w
  received-Reads = (Reads-append (received w) 0 w (0 ∷ []) (Reads-map (w ++ 0 ∷ []) _)).0

  length-received : length (received w) ≡ 4096
  length-received =
      length-over (w ++ 0 ∷ []) (fresh 4096)
        (omega (arith, length-append w (0 ∷ []), length-fresh 4096))
      ∙ length-fresh 4096

  -- The request line's sixth byte decides.
  html_answer-root :
      get_elem? w 5 ≡ some b' ' → html_answer (bytes w) ≡ answer_page (received w) (length w)
  unfolding html_answer
  html_answer-root root =
      let some_bytes : (length w == 0) ≡ false = ground (arith, get_elem?-lt w 5 root) in
      rw (
        copy-received,
        store-received,
        some_bytes,
        Reads-get_elem? (received w) 0 w 5 b' ' received-Reads root,
      )

-- A request: its first line, the headers and an empty line.
unfoldable pub request : (first : List ℕ) → List Line → List ℕ
request first lines = first ++ 13 ∷ 10 ∷ (broken lines ++ 13 ∷ 10 ∷ [])

module _ (first : List ℕ) (l : Line) (lines : List Line) (in_buf : Block ℕ)
    (r : Reads in_buf 0 (request first (l ∷ lines))) (sized : length in_buf ≡ 4096)
    (clean : Avoids 13 first) (a : AllLines (l ∷ lines)) (c : AllClean (l ∷ lines))
    (few : length (l ∷ lines) ≤ 48) (fits : length (request first (l ∷ lines)) < 4096)
    (page_fits : length (page (l ∷ lines)) < 4096) where
  answer_page-lines :
      answer_page in_buf (length (request first (l ∷ lines))) ≡ some (sends (page (l ∷ lines)))
  unfolding answer_page request
  answer_page-lines =
      let total = length-append first (13 ∷ 10 ∷ (broken (l ∷ lines) ++ 13 ∷ 10 ∷ [])) in
      let of_rest = length-append (broken (l ∷ lines)) (13 ∷ 10 ∷ []) in
      let of_line = length-broken l lines in
      let start = 0 + length first + 2 in
      let end = length first + length (broken (l ∷ lines)) in
      let n = length (request first (l ∷ lines)) in
      let (front, (cr, (lf, rest'))) =
        Reads-append in_buf 0 first (13 ∷ 10 ∷ (broken (l ∷ lines) ++ 13 ∷ 10 ∷ [])) r in
      let rest : Reads in_buf start (broken (l ∷ lines) ++ 13 ∷ 10 ∷ []) =
        subst (λ k. Reads in_buf k (broken (l ∷ lines) ++ 13 ∷ 10 ∷ [])) (omega arith) rest' in
      let parse : str_to_headers header_buffer 48 in_buf start (end - start)
          ≡ some (length (l ∷ lines), filled (l ∷ lines) header_buffer) =
        subst
          (λ k.
            str_to_headers header_buffer k in_buf start (end - start)
            ≡ some (length (l ∷ lines), filled (l ∷ lines) header_buffer))
          length-header_buffer
          (str_to_headers-lines in_buf start (end - start) (l ∷ lines) header_buffer a
            header_buffer-AllRoom rest (omega (arith, of_line, text_pos l))
            (omega (arith, length-header_buffer))) in
      let (cleared, fills, empty) = fill-Holds 4095 in_buf sized in
      let (in1, out1, lists, collected, room) =
        list_items-Holds (filled (l ∷ lines) header_buffer) (l ∷ lines) 0 [] cleared (fresh 4096) a
          (filled-Stores (l ∷ lines) header_buffer a c header_buffer-AllRoom
            (omega (arith, length-header_buffer)))
          empty (length-fresh 4096) (omega (arith, items-le-page (l ∷ lines))) in
      rw (
        line_end-Reads in_buf 4097 0 first front clean cr (omega (arith, total)),
        headers_end-lines in_buf n (n + 1) start end l lines a rest (omega (arith, total, of_rest))
            (omega arith) (omega (arith, total, of_rest, lines-le-broken (l ∷ lines))),
        parse,
        fills,
        lists,
        send_page-Holds (l ∷ lines) in1 out1 collected room page_fits,
      )

-- A request whose sixth byte is a space: a first line with no carriage return, one to 48 header
-- lines, each line with its line break, and an empty line. In each header line, key and value stand
-- round a colon with any spaces round each, neither is empty or has a NUL, the key has no colon,
-- each has less than 64 bytes, and the line has no carriage return. The request, and the head and
-- the page together, are shorter than 4096 bytes. Then `html_answer` sends the head, whose
-- Content-Length is one less than the page has bytes, and the page, with an item "key: value" for
-- each header, in their order.
pub html_answer-page :
    (first : List ℕ) (l : Line) (lines : List Line)
    → get_elem? (request first (l ∷ lines)) 5 ≡ some b' '
    → Avoids 13 first
    → AllLines (l ∷ lines)
    → AllClean (l ∷ lines)
    → length (l ∷ lines) ≤ 48
    → length (request first (l ∷ lines)) < 4096
    → length (page (l ∷ lines)) < 4096
    → html_answer (bytes (request first (l ∷ lines))) ≡ some (sends (page (l ∷ lines)))
html_answer-page first l lines root clean a c few fits page_fits =
    let w = request first (l ∷ lines) in
    html_answer-root w fits root
    ∙ answer_page-lines first l lines (received w) (received-Reads w fits) (length-received w fits)
        clean a c few fits page_fits

load_behind :
    (u : List ℕ) (n : ℕ) → length u ≤ n → load (over u (replicate n none)) (length u) ≡ none
unfolding load
load_behind [] zero h = refl
load_behind [] (suc n) h = refl
load_behind (x ∷ u) zero h = absurd (omega arith)
load_behind (x ∷ u) (suc n) h = load_behind u n (omega arith)

headers_end-none :
    (in_buf : Block ℕ) (bytes_read fuel at stop : ℕ) {x1 x2 : ℕ}
    → at < bytes_read
    → find in_buf 13 (bytes_read - at) at ≡ some stop
    → load in_buf (stop + 1) ≡ some x1
    → load in_buf (stop + 2) ≡ some x2
    → load in_buf (stop + 3) ≡ none
    → headers_end in_buf bytes_read (suc fuel) at ≡ none
unfolding headers_end
headers_end-none in_buf bytes_read fuel at stop inside found e1 e2 e3 =
    let test : ltb at bytes_read ≡ true = ground arith in rw (test, headers_end, found, e1, e2, e3)

-- On a request of less than 4096 bytes whose sixth byte is a space, and which is a first line with
-- no carriage return, its line break and an empty line, `html_answer` is undefined: it reads a byte
-- of its buffer that was never written.
pub html_answer-no_headers :
    (first : List ℕ)
    → get_elem? (request first []) 5 ≡ some b' '
    → Avoids 13 first
    → length (request first []) < 4096
    → html_answer (bytes (request first [])) ≡ none
unfolding answer_page request broken fresh
html_answer-no_headers first root clean fits =
    let w = request first [] in
    let in_buf = received w in
    let n = length first + 4 in
    let start = 0 + length first + 2 in
    let total : length w ≡ n = length-append first (13 ∷ 10 ∷ 13 ∷ 10 ∷ []) in
    let of_nul = length-append w (0 ∷ []) in
    let at_load = λ (i j : ℕ) (x : Option ℕ) (e : i ≡ j) (h : load in_buf i ≡ x).
      subst (λ k. load in_buf k ≡ x) e h in
    let nul = (Reads-append in_buf 0 w (0 ∷ []) (Reads-map (w ++ 0 ∷ []) _)).1.0 in
    let (front, (cr, (lf, (cr2, (lf2, done))))) =
      Reads-append in_buf 0 first (13 ∷ 10 ∷ 13 ∷ 10 ∷ []) (received-Reads w fits) in
    let found : find in_buf 13 (n - start) start ≡ some start =
      find-Reads in_buf 13 (n - start) start [] tt tt
        (at_load (0 + length first + 1 + 1) (start + 0) (some 13) (omega arith) cr2) (omega arith)
      ∙ ap some (omega arith) in
    let ends : headers_end in_buf n (n + 1) start ≡ none =
      subst (λ k. headers_end in_buf n k start ≡ none) (omega arith)
        (headers_end-none in_buf n n start start (omega arith) found
          (at_load (0 + length first + 1 + 1 + 1) (start + 1) (some 10) (omega arith) lf2)
          (at_load (0 + length w) (start + 2) (some 0) (omega (arith, total)) nul)
          (at_load (length (w ++ 0 ∷ [])) (start + 3) none (omega (arith, total, of_nul))
            (load_behind (w ++ 0 ∷ []) 4096 (omega (arith, of_nul))))) in
    html_answer-root w fits root
    ∙ rw (total, line_end-Reads in_buf 4097 0 first front clean cr (omega (arith, total)), ends)
