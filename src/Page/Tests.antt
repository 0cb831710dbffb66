-- ===== src/Page/Tests.antt =====
-- A request with two headers, and one with none.
use c10k.Base.{ℕ, ◌≡◌, ◌<◌, length, get_elem?, refl, none, some, List, [], ◌∷◌, arith}
use c10k.Http.Reads.{Avoids, spaces}
use c10k.Http.Headers.{broken}
use c10k.Http.Print.{printed}
use c10k.Calc.{bytes}
use c10k.Http.Parse.{Line, IsLine, text}
use c10k.Page.{
  sends, html_answer, item_begin, item_end, head, head_front, head_back, digits, html_page_begin,
  html_page_end,
}
use c10k.Page.Response.{page, body}
use c10k.Page.Items.{item, items}
use c10k.Page.Answers.{request, html_answer-page, html_answer-no_headers}

-- `Host: a`
abbrev host : Line
host = record {
  key = b'H' ∷ b'o' ∷ [];
  key_before = 0;
  key_after = 0;
  value = b'a' ∷ [];
  value_before = 1;
  value_after = 0;
}

-- `B :c`
abbrev other : Line
other = record {
  key = b'B' ∷ [];
  key_before = 0;
  key_after = 1;
  value = b'c' ∷ [];
  value_before = 0;
  value_after = 0;
}

-- `GET / `
abbrev get_root : List ℕ
get_root = b'G' ∷ b'E' ∷ b'T' ∷ b' ' ∷ b'/' ∷ b' ' ∷ []

host-IsLine : IsLine host
host-IsLine = record {
  key_trimmed = record {
    first = b'H';
    rest = b'o' ∷ [];
    begins = refl;
    first_ne = omega arith;
    front = b'H' ∷ [];
    last = b'o';
    ends = refl;
    last_ne = omega arith;
  };
  value_trimmed = record {
    first = b'a';
    rest = [];
    begins = refl;
    first_ne = omega arith;
    front = [];
    last = b'a';
    ends = refl;
    last_ne = omega arith;
  };
  no_colon = (omega arith, (omega arith, tt));
  key_fits = omega arith;
  value_fits = omega arith;
}

other-IsLine : IsLine other
other-IsLine = record {
  key_trimmed = record {
    first = b'B';
    rest = [];
    begins = refl;
    first_ne = omega arith;
    front = [];
    last = b'B';
    ends = refl;
    last_ne = omega arith;
  };
  value_trimmed = record {
    first = b'c';
    rest = [];
    begins = refl;
    first_ne = omega arith;
    front = [];
    last = b'c';
    ends = refl;
    last_ne = omega arith;
  };
  no_colon = (omega arith, tt);
  key_fits = omega arith;
  value_fits = omega arith;
}

root_sixth : get_elem? (request get_root (host ∷ other ∷ [])) 5 ≡ some b' '
unfolding request
root_sixth = refl

request_fits : length (request get_root (host ∷ other ∷ [])) < 4096
unfolding request broken spaces
request_fits = omega arith

page_fits : length (page (host ∷ other ∷ [])) < 4096
unfolding page body items item item_begin item_end printed head head_front head_back digits
    html_page_begin html_page_end
page_fits = omega arith

host-Avoids : Avoids 13 (text host)
unfolding spaces
host-Avoids = omega arith

other-Avoids : Avoids 13 (text other)
unfolding spaces
other-Avoids = omega arith

html_answer-page_example :
    html_answer (bytes (request get_root (host ∷ other ∷ [])))
    ≡ some (sends (page (host ∷ other ∷ [])))
html_answer-page_example =
    html_answer-page get_root host (other ∷ []) root_sixth (omega arith)
      (host-IsLine, host-Avoids, (other-IsLine, other-Avoids, tt)) (omega arith) (omega arith)
      request_fits page_fits

bare_sixth : get_elem? (request get_root []) 5 ≡ some b' '
unfolding request
bare_sixth = refl

bare_fits : length (request get_root []) < 4096
unfolding request broken
bare_fits = omega arith

html_answer-no_headers_example : html_answer (bytes (request get_root [])) ≡ none
html_answer-no_headers_example = html_answer-no_headers get_root bare_sixth (omega arith) bare_fits
