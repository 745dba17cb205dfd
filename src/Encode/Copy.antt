-- ===== src/Encode/Copy.antt =====
-- How the server reads the text form of COPY, by PostgreSQL's documentation and independently of
-- src/encode.cpp: a newline ends a row and a tab a field; a backslash takes the next byte with it;
-- the field `\N` is NULL, and in any other a backslash and a letter stand for a control character
-- or for the letter itself. (Octal and hexadecimal escapes are left out.)
use mathlib.Core.List.{foldl}
use rpostgres.Prelude.{
  ℕ, Bool, true, false, Option, none, some, List, [], ◌∷◌, ◌++◌, ◌==◌, if◌then◌else◌, ◌&&◌,
}
use rpostgres.Runtime.{Bytes}
use rpostgres.Encode.{tab, newline, backslash}

-- The control character that a letter after a backslash stands for.
unfoldable pub control : ℕ → ℕ
control c =
    if c == 98
    then 8
    else if c == 102
    then 12
    else if c == 110
    then newline
    else if c == 114
    then 13
    else if c == 116
    then tab
    else if c == 118
    then 11
    else c

-- The bytes so far, and whether the last one was a backslash that escapes the next.
pub record Unescaping : Type 0 where
  pub escaped : Bool
  pub out : Bytes

unfoldable pub unescape_byte : Unescaping → ℕ → Unescaping
unfolding control
unescape_byte u c =
    if u.escaped
    then record { escaped = false; out = u.out ++ control c ∷ [] }
    else if c == backslash
    then record { escaped = true; out = u.out }
    else record { escaped = false; out = u.out ++ c ∷ [] }

unfoldable pub unescape : Bytes → Bytes
unfolding unescape_byte
unescape field = (foldl unescape_byte (record { escaped = false; out = [] }) field).out

unfoldable pub is_null_marker : Bytes → Bool
is_null_marker [] = false
is_null_marker (c ∷ []) = false
is_null_marker (c ∷ d ∷ []) = c == backslash && d == 78
is_null_marker (c ∷ d ∷ e ∷ rest) = false

-- `none` is NULL.
unfoldable pub read_field : Bytes → Option Bytes
unfolding unescape is_null_marker
read_field raw = if is_null_marker raw then none else some (unescape raw)

-- The rows that are complete, the fields of the row at hand, and the bytes of the field at hand.
pub record Reading : Type 0 where
  pub escaped : Bool
  pub raw : Bytes
  pub row : List (Option Bytes)
  pub rows : List (List (Option Bytes))

unfoldable pub read_byte : Reading → ℕ → Reading
unfolding read_field
read_byte s c =
    if s.escaped
    then record s { escaped = false; raw = s.raw ++ c ∷ [] }
    else if c == backslash
    then record s { escaped = true; raw = s.raw ++ c ∷ [] }
    else if c == tab
    then record s { raw = []; row = s.row ++ read_field s.raw ∷ [] }
    else if c == newline
    then record s { raw = []; row = []; rows = s.rows ++ (s.row ++ read_field s.raw ∷ []) ∷ [] }
    else record s { raw = s.raw ++ c ∷ [] }

abbrev pub reading : List (List (Option Bytes)) → List (Option Bytes) → Bytes → Reading
reading rows row raw = record { escaped = false; raw = raw; row = row; rows = rows }

unfoldable pub read_bytes : Reading → Bytes → Reading
unfolding read_byte
read_bytes = foldl read_byte

-- The table that the server reads from a whole COPY, and what is left of an unfinished row.
unfoldable pub read_copy : Bytes → Reading
unfolding read_bytes
read_copy text = read_bytes (reading [] [] []) text
