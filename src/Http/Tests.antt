-- ===== src/Http/Tests.antt =====
-- The header parser on a concrete line.
use c10k.Base.{◌+◌, ℕ, ◌≡◌, refl, none, some, [], ◌∷◌, ◌++◌, length, replicate, arith}
use c10k.Base.Memory.{Block, load}
use c10k.Http.{Header, success, no_value, strlen, str_to_header, str_to_headers, header_to_str}
use c10k.Http.Reads.{Reads, Avoids, spaces, terminated}
use c10k.Http.Headers.{broken, filled, str_to_headers-lines}
use c10k.Http.Strings.{Holds}
use c10k.Http.Print.{plain, str_to_header-header_to_str}
use c10k.Http.Bounds.{str_to_header-no_colon}
use c10k.Http.Parse.{Line, IsLine, text, str_to_header-line}

-- ` Ab :  x`
abbrev line : Line
line = record {
  key = b'A' ∷ b'b' ∷ [];
  key_before = 1;
  key_after = 1;
  value = b'x' ∷ [];
  value_before = 2;
  value_after = 0;
}

abbrev str : Block ℕ
str =
    some b' '
    ∷ some b'A'
    ∷ some b'b'
    ∷ some b' '
    ∷ some b':'
    ∷ some b' '
    ∷ some b' '
    ∷ some b'x'
    ∷ some 0
    ∷ []

abbrev blank : Header
blank = record { key = replicate 64 none; value = replicate 64 none }

line-IsLine : IsLine line
line-IsLine = record {
  key_trimmed = record {
    first = b'A';
    rest = b'b' ∷ [];
    begins = refl;
    first_ne = omega arith;
    front = b'A' ∷ [];
    last = b'b';
    ends = refl;
    last_ne = omega arith;
  };
  value_trimmed = record {
    first = b'x';
    rest = [];
    begins = refl;
    first_ne = omega arith;
    front = [];
    last = b'x';
    ends = refl;
    last_ne = omega arith;
  };
  no_colon = (omega arith, (omega arith, tt));
  key_fits = omega arith;
  value_fits = omega arith;
}

line-Reads : Reads str 0 (text line)
unfolding load spaces
line-Reads = (refl, (refl, (refl, (refl, (refl, (refl, (refl, (refl, tt))))))))

str_to_header-line_example :
    str_to_header blank str 0 (length (text line))
    ≡ some (
      success,
      record { key = terminated line.key blank.key; value = terminated line.value blank.value },
    )
str_to_header-line_example = str_to_header-line str 0 line blank line-IsLine line-Reads refl refl

-- The first four bytes, ` Ab `.
str_to_header-no_colon_example : str_to_header blank str 0 4 ≡ none
unfolding load
str_to_header-no_colon_example =
    str_to_header-no_colon blank str 0 (b' ' ∷ b'A' ∷ b'b' ∷ b' ' ∷ [])
      (refl, (refl, (refl, (refl, tt)))) (omega arith) (omega arith)

-- The line with its line break, and an empty line.
abbrev broken_str : Block ℕ
broken_str =
    some b' '
    ∷ some b'A'
    ∷ some b'b'
    ∷ some b' '
    ∷ some b':'
    ∷ some b' '
    ∷ some b' '
    ∷ some b'x'
    ∷ some 13
    ∷ some 10
    ∷ some 13
    ∷ some 10
    ∷ []

broken-Reads : Reads broken_str 0 (broken (line ∷ []) ++ 13 ∷ 10 ∷ [])
unfolding load spaces broken
broken-Reads = (
  refl,
  (refl, (refl, (refl, (refl, (refl, (refl, (refl, (refl, (refl, (refl, (refl, tt))))))))))),
)

line-Avoids : Avoids 13 (text line)
unfolding spaces
line-Avoids = omega arith

broken_bytes : length (broken (line ∷ [])) ≡ 8 + 2
unfolding broken spaces
broken_bytes = refl

str_to_headers-lines_example :
    str_to_headers (blank ∷ []) 1 broken_str 0 8 ≡ some (1, filled (line ∷ []) (blank ∷ []))
str_to_headers-lines_example =
    str_to_headers-lines broken_str 0 8 (line ∷ []) (blank ∷ []) (line-IsLine, line-Avoids, tt)
      ((refl, refl), tt) broken-Reads broken_bytes (omega arith)

abbrev given : Header
given = record {
  key = some b'A' ∷ some b'b' ∷ some 0 ∷ replicate 61 none;
  value = some b'x' ∷ some 0 ∷ replicate 62 none;
}

given_key : Holds 64 given.key line.key
given_key = record { sized = refl; rest = replicate 61 none; shape = refl; clean = omega arith }

given_value : Holds 64 given.value line.value
given_value = record { sized = refl; rest = replicate 62 none; shape = refl; clean = omega arith }

plain-IsLine : IsLine (plain line.key line.value)
plain-IsLine = record {
  key_trimmed = line-IsLine.key_trimmed;
  value_trimmed = line-IsLine.value_trimmed;
  no_colon = line-IsLine.no_colon;
  key_fits = line-IsLine.key_fits;
  value_fits = line-IsLine.value_fits;
}

str_to_header-header_to_str_example :
    (block : Block ℕ) × (header_to_str (replicate 10 none) given 8 ≡ some (no_value, block))
    × (strlen block ≡ some 5)
    × (str_to_header blank block 0 5
        ≡ some (
          success,
          record { key = terminated line.key blank.key; value = terminated line.value blank.value },
        ))
str_to_header-header_to_str_example =
    str_to_header-header_to_str given blank line.key line.value (replicate 10 none) 8 given_key
      given_value plain-IsLine refl refl (omega arith) (omega arith)
