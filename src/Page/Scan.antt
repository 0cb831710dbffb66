-- ===== src/Page/Scan.antt =====
-- The two scans of `html_answer`: for the end of the first line and for the end of the headers.
use c10k.Base.{
  ℕ, zero, suc, ◌+◌, ◌-◌, ◌<◌, ◌≡◌, ◌≢◌, ap, ◌∙◌, subst, true, false, if◌then◌else◌, ltb, ◌==◌,
  ◌&&◌, some, List, [], ◌∷◌, ◌++◌, length, get_elem?, arith,
}
use mathlib.Core.List.{append_assoc}
use c10k.Base.Memory.{Block, load}
use c10k.Http.{find}
use c10k.Http.Reads.{Reads, Avoids, find-Reads}
use c10k.Http.Parse.{Line, text}
use c10k.Http.Headers.{broken, AllLines, first_line, text_pos, length-broken}
use c10k.Page.{line_end, headers_end}

pub Reads-get_elem? :
    (str : Block ℕ) (at : ℕ) (w : List ℕ) (i x : ℕ)
    → Reads str at w
    → get_elem? w i ≡ some x
    → load str (at + i) ≡ some x
Reads-get_elem? str at [] i x r e = cc
Reads-get_elem? str at (y ∷ w) zero x (here, r) e =
    subst (λ n. load str n ≡ some x) (omega arith) (here ∙ e)
Reads-get_elem? str at (y ∷ w) (suc i) x (here, r) e =
    subst (λ n. load str n ≡ some x) (omega arith) (Reads-get_elem? str (at + 1) w i x r e)

-- The first carriage return.
pub line_end-Reads :
    (in_buf : Block ℕ) (fuel at : ℕ) (w : List ℕ)
    → Reads in_buf at w
    → Avoids 13 w
    → load in_buf (at + length w) ≡ some 13
    → length w < fuel
    → line_end in_buf fuel at ≡ some (at + length w)
unfolding line_end
line_end-Reads in_buf zero at w r a stop h = absurd (omega arith)
line_end-Reads in_buf (suc fuel) at [] r a stop h =
    let here : load in_buf at ≡ some 13 = subst (λ n. load in_buf n ≡ some 13) (omega arith) stop in
    rw here (ap some (omega arith))
line_end-Reads in_buf (suc fuel) at (x ∷ w) (here, r) (ne, a) stop h =
    let miss : (x == 13) ≡ false = ground arith in
    rw (here, miss)
      (line_end-Reads in_buf fuel (at + 1) w r a
          (subst (λ n. load in_buf n ≡ some 13) (omega arith) stop) (omega arith)
        ∙ ap some (omega arith))

-- A line begins with a byte other than a carriage return, and one more byte follows.
two_bytes :
    (str : Block ℕ) (at : ℕ) (w rest : List ℕ) (next : ℕ)
    → 0 < length w
    → Avoids 13 w
    → Reads str at (w ++ next ∷ rest)
    → (x : ℕ) × (y : ℕ) × (load str at ≡ some x) × (x ≢ 13) × (load str (at + 1) ≡ some y)
two_bytes str at [] rest next h a r = absurd (omega arith)
two_bytes str at (x ∷ []) rest next h (ne, a) (here, (there, r)) = (x, next, here, ne, there)
two_bytes str at (x ∷ y ∷ w) rest next h (ne, a) (here, (there, r)) = (x, y, here, ne, there)

headers_end_round :
    (in_buf : Block ℕ) (bytes_read fuel at stop : ℕ) {x1 x2 x3 : ℕ}
    → at < bytes_read
    → find in_buf 13 (bytes_read - at) at ≡ some stop
    → load in_buf (stop + 1) ≡ some x1
    → load in_buf (stop + 2) ≡ some x2
    → load in_buf (stop + 3) ≡ some x3
    → headers_end in_buf bytes_read (suc fuel) at ≡ (
        if x1 == 10 && x2 == 13 && x3 == 10
        then some stop
        else headers_end in_buf bytes_read fuel (stop + 2))
unfolding headers_end
headers_end_round in_buf bytes_read fuel at stop inside found e1 e2 e3 =
    let test : ltb at bytes_read ≡ true = ground arith in rw (test, headers_end, found, e1, e2, e3)

-- The scan ends in front of the last line break of the last line.
pub headers_end-lines :
    (in_buf : Block ℕ) (bytes_read fuel at end : ℕ) (l : Line) (lines : List Line)
    → AllLines (l ∷ lines)
    → Reads in_buf at (broken (l ∷ lines) ++ 13 ∷ 10 ∷ [])
    → bytes_read ≡ end + 4
    → end + 2 ≡ at + length (broken (l ∷ lines))
    → length lines < fuel
    → headers_end in_buf bytes_read fuel at ≡ some end
unfolding broken
headers_end-lines in_buf bytes_read zero at end l lines a r total len enough = absurd (omega arith)
headers_end-lines in_buf bytes_read (suc fuel) at end l [] (is, clean, a) r total len enough =
    let (front, cr, lf, (cr2, (lf2, done))) = first_line in_buf at l [] r in
    let stop = at + length (text l) in
    headers_end_round in_buf bytes_read fuel at stop (omega (arith, length-broken l [], text_pos l))
      (find-Reads in_buf 13 (bytes_read - at) at (text l) front clean cr
        (omega (arith, length-broken l [])))
      lf cr2 (subst (λ n. load in_buf n ≡ some 10) (omega arith) lf2)
    ∙ ap some (omega (arith, length-broken l []))
headers_end-lines in_buf bytes_read (suc fuel) at end l (next ∷ lines) (is, clean, a) r total len
      enough =
    let (front, cr, lf, rest) = first_line in_buf at l (next ∷ lines) r in
    let stop = at + length (text l) in
    let split : broken (next ∷ lines) ++ 13 ∷ 10 ∷ []
        ≡ text next ++ 13 ∷ 10 ∷ (broken lines ++ 13 ∷ 10 ∷ []) =
      append_assoc (text next) (13 ∷ 10 ∷ broken lines) (13 ∷ 10 ∷ []) in
    let (x, y, e2, ne, e3) =
      two_bytes in_buf (stop + 2) (text next) (10 ∷ (broken lines ++ 13 ∷ 10 ∷ [])) 13
        (text_pos next) a.1 (subst (Reads in_buf (stop + 2)) split rest) in
    let miss : (x == 13) ≡ false = ground arith in
    headers_end_round in_buf bytes_read fuel at stop
      (omega (arith, length-broken l (next ∷ lines), text_pos l))
      (find-Reads in_buf 13 (bytes_read - at) at (text l) front clean cr
        (omega (arith, length-broken l (next ∷ lines))))
      lf e2 (subst (λ n. load in_buf n ≡ some y) (omega arith) e3)
    ∙ rw miss (
        headers_end-lines in_buf bytes_read fuel (stop + 2) end next lines a rest total
          (omega (arith, length-broken l (next ∷ lines))) (omega arith))
