-- ===== src/Page/Items.antt =====
-- The loop of `html_answer` over the headers: the list of items that it collects.
use c10k.Base.{
  ℕ, suc, ◌+◌, ◌≤◌, ◌<◌, ◌≡◌, refl, ap, sym, subst, some, List, [], ◌∷◌, ◌++◌, map, length,
  length-append, length-drop, length-map, take, drop, get_elem?, arith,
}
use mathlib.Core.List.{append_assoc, append-nil}
use c10k.Base.Memory.{Block}
use c10k.Http.{Header}
use c10k.Http.Reads.{Avoids, terminated}
use c10k.Http.Strings.{Holds, strlen-Holds, strcpy-Holds}
use c10k.Http.Parse.{Line, IsLine, text}
use c10k.Http.Headers.{AllLines, AllRoom, stored, filled}
use c10k.Http.Print.{printed, length-printed, header_to_str-Holds}
use c10k.Page.{item_begin, item_end, list_item, list_items}
use c10k.Page.Strings.{literal-Holds, strncat-Holds, append-Holds}

-- "<li>key: value</li>"
unfoldable pub item : Line → List ℕ
item l = (item_begin ++ printed l.key l.value) ++ item_end

unfoldable pub items : List Line → List ℕ
items [] = []
items (l ∷ lines) = item l ++ items lines

-- No NUL in the key and the value.
abbrev pub AllClean : List Line → Type 0
AllClean [] = Unit
AllClean (l ∷ lines) = Avoids 0 l.key × Avoids 0 l.value × AllClean lines

length-item : (l : Line) → length (item l) ≡ length l.key + length l.value + 11
unfolding item item_begin item_end
length-item l = omega (
  arith,
  length-append (item_begin ++ printed l.key l.value) item_end,
  length-append item_begin (printed l.key l.value),
  length-printed l.key l.value,
)

-- `&out_buf[4]`, behind the text that `strcpy` put there.
split_item_begin :
    {out : Block ℕ}
    → Holds 4096 out item_begin
    → (take 4 out ≡ map some item_begin) × (length (drop 4 out) ≡ 4092)
unfolding item_begin
split_item_begin {out} h = (ap (take 4) h.shape, omega (arith, length-drop 4 out, h.sized))

module _ (header : Header) (l : Line) (acc : List ℕ) (in_buf out_buf : Block ℕ) (is : IsLine l)
    (k : Holds 64 header.key l.key) (v : Holds 64 header.value l.value)
    (collected : Holds 4096 in_buf acc) (room : length out_buf ≡ 4096)
    (fits : length acc + length (item l) < 4096) where
  list_item-Holds :
      (in1 : Block ℕ) × (out1 : Block ℕ) × (list_item header in_buf out_buf ≡ some (in1, out1))
      × Holds 4096 in1 (acc ++ item l)
      × (length out1 ≡ 4096)
  unfolding list_item item item_begin item_end
  list_item-Holds =
      let begin_clean : Avoids 0 item_begin = omega arith in
      let end_clean : Avoids 0 item_end = omega arith in
      let (out1, copies, h1) =
        strcpy-Holds item_begin out_buf (literal-Holds item_begin begin_clean) room (omega arith) in
      let (front, back) = split_item_begin h1 in
      let (text, prints, h2) =
        header_to_str-Holds header l.key l.value (drop 4 out1) 4092 k v
          (omega (arith, is.key_fits, is.value_fits)) (omega (arith, is.key_fits, is.value_fits)) in
      let whole : Holds 4096 (map some item_begin ++ text) (item_begin ++ printed l.key l.value) =
        append-Holds item_begin (printed l.key l.value) begin_clean
          (subst (λ n. Holds n text (printed l.key l.value)) back h2) in
      let (out2, closes, h3) =
        strncat-Holds (item_begin ++ printed l.key l.value) item_end 6 whole
          (literal-Holds item_end end_clean) (omega arith)
          (omega (arith, length-printed l.key l.value, is.key_fits, is.value_fits)) in
      let (in1, joins, h4) =
        strncat-Holds acc (item l) (length (item l)) collected h3 (omega arith) fits in
      (in1, out2, rw (copies, prints, front, closes, strlen-Holds (item l) h3, joins), h4, h3.sized)

-- The headers from index `i` on hold the keys and the values of the lines.
abbrev pub Stores : List Header → (i : ℕ) → List Line → Type 0
Stores headers i [] = Unit
Stores headers i (l ∷ lines) =
    ((h : Header) × (get_elem? headers i ≡ some h)
      × Holds 64 h.key l.key
      × Holds 64 h.value l.value)
    × Stores headers (i + 1) lines

terminated-Holds :
    (w : List ℕ) (dst : Block ℕ)
    → Avoids 0 w
    → length dst ≡ 64
    → length w < 64
    → Holds 64 (terminated w dst) w
terminated-Holds w dst a e h = record {
  sized = omega (
    arith,
    length-append (map some w) (some 0 ∷ drop (suc (length w)) dst),
    length-map w (λ (x : ℕ). some x),
    length-drop (suc (length w)) dst,
  );
  rest = drop (suc (length w)) dst;
  shape = refl;
  clean = a;
}

Stores-cons :
    (h : Header) (headers : List Header) (i : ℕ) (lines : List Line)
    → Stores headers i lines
    → Stores (h ∷ headers) (i + 1) lines
Stores-cons h headers i [] s = tt
Stores-cons h headers i (l ∷ lines) ((header, here, k, v), s) = (
  (header, subst (λ n. get_elem? (h ∷ headers) n ≡ some header) (add_one i) here, k, v),
  Stores-cons h headers (i + 1) lines s,
)
  where
    add_one : (n : ℕ) → suc n ≡ n + 1
    add_one n = omega arith

-- What `http_str_to_headers` stored.
pub filled-Stores :
    (lines : List Line) (headers : List Header)
    → AllLines lines
    → AllClean lines
    → AllRoom headers
    → length lines ≤ length headers
    → Stores (filled lines headers) 0 lines
unfolding filled
filled-Stores [] headers a c room h = tt
filled-Stores (l ∷ lines) [] a c room h = absurd (omega arith)
filled-Stores (l ∷ lines) (old ∷ headers) (is, clean, a) (kc, vc, c) (r, room) h = (
  (
    stored l old,
    refl,
    terminated-Holds l.key old.key kc r.0 is.key_fits,
    terminated-Holds l.value old.value vc r.1 is.value_fits,
  ),
  subst (λ n. Stores (filled (l ∷ lines) (old ∷ headers)) n lines) (omega arith)
      (Stores-cons (stored l old) (filled lines headers) 0 lines
        (filled-Stores lines headers a c room (omega arith))),
)

-- The loop puts the items of the lines behind what was collected.
pub list_items-Holds :
    (headers : List Header) (lines : List Line) (i : ℕ) (acc : List ℕ) (in_buf out_buf : Block ℕ)
    → AllLines lines
    → Stores headers i lines
    → Holds 4096 in_buf acc
    → length out_buf ≡ 4096
    → length acc + length (items lines) < 4096
    → (in1 : Block ℕ) × (out1 : Block ℕ) × (list_items headers (length lines) i in_buf out_buf
        ≡ some (in1, out1))
      × Holds 4096 in1 (acc ++ items lines)
      × (length out1 ≡ 4096)
unfolding list_items items
list_items-Holds headers [] i acc in_buf out_buf a s collected room fits =
    (in_buf, out_buf, refl, subst (Holds 4096 in_buf) (sym (append-nil acc)) collected, room)
list_items-Holds headers (l ∷ lines) i acc in_buf out_buf (is, clean, a) ((header, here, k, v), s)
      collected room fits =
    let len = length-append (item l) (items lines) in
    let (in1, out1, lists, h1, room1) =
      list_item-Holds header l acc in_buf out_buf is k v collected room (omega (arith, len)) in
    let (in2, out2, more, h2, room2) =
      list_items-Holds headers lines (i + 1) (acc ++ item l) in1 out1 a s h1 room1
        (omega (arith, len, length-append acc (item l))) in
    (
      in2,
      out2,
      rw (here, lists, more),
      subst (Holds 4096 in2) (append_assoc acc (item l) (items lines)) h2,
      room2,
    )
