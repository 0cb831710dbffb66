-- ===== src/Http/Headers.antt =====
-- `http_str_to_headers` on header lines that each end with a carriage return and a newline.
use c10k.Base.{
  ℕ, zero, suc, ◌+◌, ◌-◌, ◌*◌, ap₂, ◌≤◌, ◌<◌, ◌≡◌, refl, ap, sym, subst, ◌∙◌, true, false, ◌&&◌,
  some, List, [], ◌∷◌, ◌++◌, length, length-append, set, get_elem?, arith, ltb,
}
use mathlib.Core.List.{append_assoc}
use c10k.Base.Memory.{Block, load}
use c10k.Http.{Header, find, headers_loop, str_to_headers, is_success}
use c10k.Http.Reads.{Reads, Reads-append, Avoids, find-Reads, terminated}
use c10k.Http.Parse.{Line, IsLine, text, key_text, value_text, str_to_header-line}

-- The lines, each with its line break.
unfoldable pub broken : List Line → List ℕ
broken [] = []
broken (l ∷ lines) = text l ++ 13 ∷ 10 ∷ broken lines

-- Each is a header line with no carriage return in it.
abbrev pub AllLines : List Line → Type 0
AllLines [] = Unit
AllLines (l ∷ lines) = IsLine l × Avoids 13 (text l) × AllLines lines

-- Two arrays of 64 bytes.
abbrev pub HasRoom : Header → Type 0
HasRoom h = (length h.key ≡ 64) × (length h.value ≡ 64)

abbrev pub AllRoom : List Header → Type 0
AllRoom [] = Unit
AllRoom (h ∷ headers) = HasRoom h × AllRoom headers

-- The header that a line stands for, in the arrays of `old`.
abbrev pub stored : Line → Header → Header
stored l old = record { key = terminated l.key old.key; value = terminated l.value old.value }

unfoldable pub filled : List Line → List Header → List Header
filled [] headers = headers
filled (l ∷ lines) [] = []
filled (l ∷ lines) (h ∷ headers) = stored l h ∷ filled lines headers

get_elem?-append :
    (done headers : List Header) (h : Header)
    → get_elem? (done ++ h ∷ headers) (length done) ≡ some h
get_elem?-append [] headers h = refl
get_elem?-append (d ∷ done) headers h = get_elem?-append done headers h

set-append :
    (done headers : List Header) (h new : Header)
    → set (done ++ h ∷ headers) (length done) new ≡ done ++ new ∷ headers
set-append [] headers h new = refl
set-append (d ∷ done) headers h new = ap (λ l. d ∷ l) (set-append done headers h new)

pub length-broken :
    (l : Line) (lines : List Line)
    → length (broken (l ∷ lines)) ≡ length (text l) + 2 + length (broken lines)
unfolding broken
length-broken l lines = omega (arith, length-append (text l) (13 ∷ 10 ∷ broken lines))

pub text_pos : (l : Line) → 0 < length (text l)
text_pos l = omega (arith, length-append (key_text l) (b':' ∷ value_text l))

pub lines-le-broken : (lines : List Line) → 3 * length lines ≤ length (broken lines)
unfolding broken
lines-le-broken [] = omega arith
lines-le-broken (l ∷ lines) =
    omega (arith, length-broken l lines, text_pos l, lines-le-broken lines)

-- The text of the first line, and its line break and what follows it.
pub first_line :
    (str : Block ℕ) (at : ℕ) (l : Line) (lines : List Line)
    → Reads str at (broken (l ∷ lines) ++ 13 ∷ 10 ∷ [])
    → Reads str at (text l)
      × (load str (at + length (text l)) ≡ some 13)
      × (load str (at + length (text l) + 1) ≡ some 10)
      × Reads str (at + length (text l) + 2) (broken lines ++ 13 ∷ 10 ∷ [])
unfolding broken
first_line str at l lines r =
    let split : broken (l ∷ lines) ++ 13 ∷ 10 ∷ []
        ≡ text l ++ (13 ∷ 10 ∷ (broken lines ++ 13 ∷ 10 ∷ [])) =
      append_assoc (text l) (13 ∷ 10 ∷ broken lines) (13 ∷ 10 ∷ []) in
    let (front, (cr, (lf, rest))) =
      Reads-append str at (text l) (13 ∷ 10 ∷ (broken lines ++ 13 ∷ 10 ∷ []))
        (subst (Reads str at) split r) in
    (front, cr, lf, subst (λ n. Reads str n (broken lines ++ 13 ∷ 10 ∷ [])) (omega arith) rest)

-- The search for the end of the next line, from its start on: also behind the last line.
pub next_end : (at : ℕ) → List Line → ℕ
next_end at [] = at
next_end at (l ∷ lines) = at + length (text l)

pub find-next_end :
    (str : Block ℕ) (at left : ℕ) (lines : List Line)
    → AllLines lines
    → Reads str at (broken lines ++ 13 ∷ 10 ∷ [])
    → length (broken lines) ≤ left + 2
    → find str 13 left at ≡ some (next_end at lines)
unfolding next_end broken find
find-next_end str at zero [] a (cr, r) h = rw cr
find-next_end str at (suc left) [] a (cr, r) h = rw cr
find-next_end str at left (l ∷ lines) (is, clean, a) r h =
    let (front, cr, lf, rest) = first_line str at l lines r in
    find-Reads str 13 left at (text l) front clean cr (omega (arith, length-broken l lines))

module _ (str : Block ℕ) (base str_len dst_size : ℕ) where
  -- A round that parses the line at `at`.
  headers_loop_round :
      (fuel index at end : ℕ) (h : Header) (l : Line) (all : List Header)
      → IsLine l
      → HasRoom h
      → Reads str at (text l)
      → at < base + str_len
      → index < dst_size
      → get_elem? all index ≡ some h
      → find str 13 (base + str_len + 1 - (at + length (text l) + 2)) (at + length (text l) + 2)
        ≡ some end
      → headers_loop str base str_len dst_size (suc fuel) index at (at + length (text l)) all
        ≡ headers_loop str base str_len dst_size fuel
            (index + 1)
            (at + length (text l) + 2)
            end
            (set all index (stored l h))
  unfolding headers_loop is_success
  headers_loop_round fuel index at end h l all is (key_room, value_room) r inside below this next =
      let test : (ltb at (base + str_len) && ltb index dst_size) ≡ true = ground arith in
      let len : at + length (text l) - at ≡ length (text l) = omega arith in
      rw (
        test,
        headers_loop,
        this,
        len,
        str_to_header-line str at l h is r key_room value_room,
        next,
      )

  -- The loop at the start of the first of the lines that are left, `done` being stored.
  headers_loop-lines :
      (lines : List Line) (fuel index at : ℕ) (done olds all : List Header)
      → AllLines lines
      → AllRoom olds
      → Reads str at (broken lines ++ 13 ∷ 10 ∷ [])
      → base + str_len + 2 ≡ at + length (broken lines)
      → length lines ≤ length olds
      → length done + length lines ≤ dst_size
      → length lines < fuel
      → index ≡ length done
      → all ≡ done ++ olds
      → headers_loop str base str_len dst_size fuel index at (next_end at lines) all
        ≡ some (index + length lines, done ++ filled lines olds)
  unfolding headers_loop next_end filled broken
  headers_loop-lines lines zero index at done olds all a room r here fits below enough e q =
      absurd (omega arith)
  headers_loop-lines [] (suc fuel) index at done olds all a room r here fits below enough e q =
      let test : (ltb at (base + str_len) && ltb index dst_size) ≡ false = ground arith in
      rw (test, headers_loop) (ap some (ground (arith, q)))
  headers_loop-lines (l ∷ lines) (suc fuel) index at done [] all a room r here fits below enough e
        q =
      absurd (omega arith)
  headers_loop-lines (l ∷ lines) (suc fuel) index at done (h ∷ olds) all (is, clean, a) (hr, room) r
        here fits below enough e q =
      let (front, cr, lf, rest) = first_line str at l lines r in
      let next = at + length (text l) + 2 in
      let len = length-broken l lines in
      let new = stored l h in
      let one = length-append done (new ∷ []) in
      headers_loop_round fuel index at (next_end next lines) h l all is hr front
        (omega (arith, len, text_pos l)) (omega arith) (rw (e, q) (get_elem?-append done olds h))
        (find-next_end str next (base + str_len + 1 - next) lines a rest (omega (arith, len)))
      ∙ headers_loop-lines lines fuel (index + 1) next (done ++ new ∷ []) olds (set all index new) a
          room rest (omega (arith, len)) (omega arith) (omega (arith, one)) (omega arith)
          (omega (arith, one))
          (rw (e, q, set-append done olds h new) (sym (append_assoc done (new ∷ []) olds)))
      ∙ ap₂ (λ n k. some (n, k)) (omega arith) (append_assoc done (new ∷ []) (filled lines olds))

-- In each header line, key and value stand round a colon with any spaces round each, neither is
-- empty, the key has no colon, each has less than 64 bytes, and the line has no carriage return. At
-- a position of a block stand such lines, each with a carriage return and a newline behind it, and
-- one more of these two at the end; `str_len` is the length of the lines without the last line
-- break, and the array has room for a header for each line, in arrays of 64 bytes. Then
-- `http_str_to_headers` returns the number of lines, and stores key and value of each, in order,
-- without the spaces round them and each with a NUL behind it; the other headers stay as they were.
pub str_to_headers-lines :
    (str : Block ℕ) (base str_len : ℕ) (lines : List Line) (dst : List Header)
    → AllLines lines
    → AllRoom dst
    → Reads str base (broken lines ++ 13 ∷ 10 ∷ [])
    → length (broken lines) ≡ str_len + 2
    → length lines ≤ length dst
    → str_to_headers dst (length dst) str base str_len ≡ some (length lines, filled lines dst)
unfolding str_to_headers
str_to_headers-lines str base str_len lines dst a room r len fits =
    rw (find-next_end str base str_len lines a r (omega arith)) (
      headers_loop-lines str base str_len (length dst) lines (str_len + 1) 0 base [] dst dst a room
        r (omega arith) fits (omega arith) (omega (arith, lines-le-broken lines)) refl refl
      ∙ ap (λ n. some (n, filled lines dst)) (omega arith))
