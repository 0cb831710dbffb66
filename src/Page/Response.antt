-- ===== src/Page/Response.antt =====
-- The response of `html_answer`: its head, and the buffers that it is put together in.
use c10k.Base.{
  ℕ, zero, suc, ◌+◌, ◌-◌, ◌%◌, ◌/◌, ◌≤◌, ◌<◌, ◌≡◌, refl, ap, ◌∙◌, ltb, some, List, [], ◌∷◌, ◌++◌,
  length, length-append, arith, Bool-cases, inl, inr,
}
use mathlib.Core.List.{append_assoc}
use c10k.Base.Memory.{Block}
use c10k.Http.Reads.{Avoids}
use c10k.Http.Strings.{Holds, strlen-Holds, strcpy-Holds}
use c10k.Http.Parse.{Line}
use c10k.Http.Print.{Avoids-append}
use c10k.Page.{
  sends, fresh, html_page_begin, html_page_end, digits, head, head_front, head_back, send_page,
}
use c10k.Page.Strings.{length-fresh, literal-Holds, strncat-Holds, send-Holds}
use c10k.Page.Items.{items}

-- The page behind the response's head.
unfoldable pub body : List Line → List ℕ
body lines = html_page_begin ++ (items lines ++ html_page_end)

-- The Content-Length is one less than the page has bytes.
unfoldable pub page : List Line → List ℕ
page lines = head (length (body lines) - 1) ++ body lines

length-digits : (count n : ℕ) → length (digits count n) ≤ count
unfolding digits
length-digits zero n = omega arith
length-digits (suc count) n = elim (Bool-cases (ltb n 10)) [
  | inl small ↦ rw small (omega arith)
  | inr large ↦ rw large (
      omega (
        arith,
        length-digits count (n / 10),
        length-append (digits count (n / 10)) ((b'0' + n % 10) ∷ []),
      ))
]

digits-Avoids : (count n : ℕ) → Avoids 0 (digits count n)
unfolding digits
digits-Avoids zero n = tt
digits-Avoids (suc count) n = elim (Bool-cases (ltb n 10)) [
  | inl small ↦ rw small (omega arith, tt)
  | inr large ↦ rw large (
      Avoids-append 0 (digits count (n / 10)) ((b'0' + n % 10) ∷ []) (digits-Avoids count (n / 10))
        (omega arith, tt))
]

front_length : length head_front ≡ 58
unfolding head_front
front_length = refl

back_length : length head_back ≡ 23
unfolding head_back
back_length = refl

begin_length : length html_page_begin ≡ 90
unfolding html_page_begin
begin_length = refl

length-head : (n : ℕ) → length (head n) ≤ 101
unfolding head
length-head n = omega (
  arith,
  front_length,
  back_length,
  length-digits 20 n,
  length-append head_front (digits 20 n ++ head_back),
  length-append (digits 20 n) head_back,
)

front-Avoids : Avoids 0 head_front
unfolding head_front
front-Avoids = omega arith

back-Avoids : Avoids 0 head_back
unfolding head_back
back-Avoids = omega arith

head-Avoids : (n : ℕ) → Avoids 0 (head n)
unfolding head
head-Avoids n =
    Avoids-append 0 head_front (digits 20 n ++ head_back) front-Avoids
      (Avoids-append 0 (digits 20 n) head_back (digits-Avoids 20 n) back-Avoids)

begin-Avoids : Avoids 0 html_page_begin
unfolding html_page_begin
begin-Avoids = omega arith

end-Avoids : Avoids 0 html_page_end
unfolding html_page_end
end-Avoids = omega arith

module _ (lines : List Line) (in_buf out_buf : Block ℕ)
    (collected : Holds 4096 in_buf (items lines)) (room : length out_buf ≡ 4096)
    (fits : length (page lines) < 4096) where
  pub send_page-Holds : send_page in_buf out_buf ≡ some (sends (page lines))
  unfolding send_page page body
  send_page-Holds =
      let h = head (length (body lines) - 1) in
      let n : length html_page_begin + length (items lines) + length html_page_end - 1
          ≡ length (body lines) - 1 =
        omega (
          arith,
          length-append html_page_begin (items lines ++ html_page_end),
          length-append (items lines) html_page_end,
        ) in
      let total = length-append h (body lines) in
      let of_body = length-append html_page_begin (items lines ++ html_page_end) in
      let of_rest = length-append (items lines) html_page_end in
      let of_two = length-append h html_page_begin in
      let of_three = length-append (h ++ html_page_begin) (items lines) in
      let (response, formats, h0) =
        strcpy-Holds h (fresh 128) (literal-Holds h (head-Avoids (length (body lines) - 1)))
          (length-fresh 128) (omega (arith, length-head (length (body lines) - 1))) in
      let (out1, e1, h1) =
        strcpy-Holds h out_buf h0 room (omega (arith, length-head (length (body lines) - 1))) in
      let (out2, e2, h2) =
        strncat-Holds h html_page_begin (length html_page_begin) h1
          (literal-Holds html_page_begin begin-Avoids) (omega arith)
          (omega (arith, total, of_body)) in
      let (out3, e3, h3) =
        strncat-Holds (h ++ html_page_begin) (items lines) (length (items lines)) h2 collected
          (omega arith) (omega (arith, total, of_body, of_rest, of_two)) in
      let (out4, e4, h4) =
        strncat-Holds ((h ++ html_page_begin) ++ items lines) html_page_end (length html_page_end)
          h3 (literal-Holds html_page_end end-Avoids) (omega arith)
          (omega (arith, total, of_body, of_rest, of_two, of_three)) in
      rw
        (
          strlen-Holds (items lines) collected,
          n,
          formats,
          e1,
          e2,
          e3,
          e4,
          send-Holds (((h ++ html_page_begin) ++ items lines) ++ html_page_end) h4,
        )
        (ap (λ w. some (sends w))
          (append_assoc (h ++ html_page_begin) (items lines) html_page_end
            ∙ append_assoc h html_page_begin (items lines ++ html_page_end)))
