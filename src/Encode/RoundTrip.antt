-- ===== src/Encode/RoundTrip.antt =====
-- The server reads back from COPY the table that `encode_data_frame` was given.
use mathlib.Core.List.{foldl-append}
use rpostgres.Prelude.{
  ℕ, ◌+◌, ◌<◌, ◌≡◌, refl, Option, none, some, List, [], ◌∷◌, ◌++◌, append_assoc, append-nil, arith,
  All, length, get_elem?, take-all, if◌then◌else◌, not,
}
use rpostgres.Prelude.Int.{ℤ, pos, ◌==ℤ◌}
use rpostgres.Prelude.Outcome.{Outcome, ok}
use rpostgres.Runtime.{Runtime, Bytes}
use rpostgres.Encode.{
  Sexp, lgl_sexp, int_sexp, real_sexp, str_sexp, other_sexp, sexp_length, tab, newline, true_text,
  false_text, nan_text, infinity_text, minus, na_integer, c_string, snprintf, encode_lgl,
  encode_int, encode_real, encode_str, encode_in_buffer, encode_fields, encode_row_in_buffer,
  encode_rows, encode_data_frame, write_elem,
}
use rpostgres.Encode.Copy.{Reading, reading, read_byte, read_bytes, read_copy, read_field}
use rpostgres.Encode.Escape.{
  IsPlainByte, Shows, escape, escape_in_buffer-eq, escape-Shows, plain-Shows, null-Shows, if-Shows,
}

module _ (r : Runtime) where
  open r use {Double, CharSxp, r_finite, is_na, is_nan, is_positive}
  open r use {format_int, format_double, translate_utf8}

  -- The values that the cells stand for; `none` is NULL.
  abbrev pub lgl_value : ℤ → Option Bytes
  lgl_value v =
      if v ==ℤ pos 1 then some true_text else if v ==ℤ pos 0 then some false_text else none

  abbrev pub int_value : ℤ → Option Bytes
  int_value v = if v ==ℤ na_integer then none else some (format_int v)

  abbrev pub real_value : Double → Option Bytes
  real_value v =
      if not (r_finite v)
      then (if is_na v
          then none
          else if is_nan v
          then some nan_text
          else if is_positive v
          then some infinity_text
          else some (minus ∷ infinity_text))
      else some (format_double v)

  abbrev pub str_value : Option CharSxp → Option Bytes
  str_value none = none
  str_value (some s) = some (c_string (translate_utf8 s))

  -- A printed number fits the buffer of `size` bytes and has no byte that COPY treats specially.
  abbrev pub Prints : ℕ → Bytes → Type 0
  Prints size text = (length text < size) × All IsPlainByte text

  -- Row `i` of a column exists, holds the value, and its number, if it is one, prints.
  abbrev pub CellIs : Sexp Double CharSxp → ℕ → Option Bytes → Type 0
  CellIs (lgl_sexp xs) i v = (a : ℤ) × (get_elem? xs i ≡ some a) × (v ≡ lgl_value a)
  CellIs (int_sexp xs) i v =
      (a : ℤ) × (get_elem? xs i ≡ some a) × (v ≡ int_value a) × Prints 32 (format_int a)
  CellIs (real_sexp xs) i v =
      (a : Double) × (get_elem? xs i ≡ some a) × (v ≡ real_value a) × Prints 24 (format_double a)
  CellIs (str_sexp xs) i v = (a : Option CharSxp) × (get_elem? xs i ≡ some a) × (v ≡ str_value a)
  CellIs (other_sexp name n) i v = ⊥

  abbrev pub RowIs : List (Sexp Double CharSxp) → ℕ → List (Option Bytes) → Type 0
  RowIs [] i [] = Unit
  RowIs [] i (v ∷ vs) = ⊥
  RowIs (x ∷ xs) i [] = ⊥
  RowIs (x ∷ xs) i (v ∷ vs) = CellIs x i v × RowIs xs i vs

  -- The rows of a data frame from row `i` on.
  abbrev pub RowsAre : List (Sexp Double CharSxp) → ℕ → List (List (Option Bytes)) → Type 0
  RowsAre xs i [] = Unit
  RowsAre xs i (row ∷ rows) = RowIs xs i row × RowsAre xs (i + 1) rows

  -- A cell's text is appended, and shows the cell's value.
  record Wrote (v : Option Bytes) (buffer : Bytes) (out : Bytes) : Type 0 where
    text : Bytes
    appended : out ≡ buffer ++ text
    shows : Shows v text

  lgl-Wrote : (a : ℤ) (buffer : Bytes) → Wrote (lgl_value a) buffer (encode_lgl r a buffer)
  unfolding encode_lgl
  lgl-Wrote a buffer = record {
    text = _;
    appended = refl;
    shows =
        if-Shows (a ==ℤ pos 1) (λ _. plain-Shows true_text (omega arith))
          (λ _.
            if-Shows (a ==ℤ pos 0) (λ _. plain-Shows false_text (omega arith)) (λ _. null-Shows));
  }

  int-Wrote :
      (a : ℤ) (buffer : Bytes)
      → Prints 32 (format_int a)
      → Wrote (int_value a) buffer (encode_int r a buffer)
  unfolding encode_int snprintf
  int-Wrote a buffer h = record {
    text = _;
    appended = refl;
    shows =
        if-Shows (a ==ℤ na_integer) (λ _. null-Shows)
          (λ _. rw (take-all 31 (format_int a) (omega arith)) (plain-Shows (format_int a) h.1));
  }

  real-Wrote :
      (a : Double) (buffer : Bytes)
      → Prints 24 (format_double a)
      → Wrote (real_value a) buffer (encode_real r a buffer)
  unfolding encode_real snprintf
  real-Wrote a buffer h = record {
    text = _;
    appended = refl;
    shows =
        if-Shows (not (r_finite a))
          (λ _.
            if-Shows (is_na a) (λ _. null-Shows)
              (λ _.
                if-Shows (is_nan a) (λ _. plain-Shows nan_text (omega arith))
                  (λ _.
                    if-Shows (is_positive a) (λ _. plain-Shows infinity_text (omega arith))
                      (λ _. plain-Shows (minus ∷ infinity_text) (omega arith)))))
          (λ _.
            rw (take-all 23 (format_double a) (omega arith)) (plain-Shows (format_double a) h.1));
  }

  str-Wrote :
      (a : Option CharSxp) (buffer : Bytes) → Wrote (str_value a) buffer (encode_str r a buffer)
  unfolding encode_str
  str-Wrote none buffer = record { text = _; appended = refl; shows = null-Shows }
  str-Wrote (some s) buffer = record {
    text = escape (c_string (translate_utf8 s));
    appended = escape_in_buffer-eq (translate_utf8 s) buffer;
    shows = escape-Shows (c_string (translate_utf8 s));
  }

  write_elem-eq {ℓ} :
      {A : Type ℓ} (xs : List A) (i : ℕ) (a : A) (write : A → Bytes → Bytes) (buffer : Bytes)
      → get_elem? xs i ≡ some a
      → write_elem xs i write buffer ≡ ok (write a buffer)
  write_elem-eq xs i a write buffer e = rw (e, write_elem)

  -- `encode_in_buffer` on a cell that is there and prints.
  cell-Wrote :
      (x : Sexp Double CharSxp) (i : ℕ) (v : Option Bytes) (buffer : Bytes)
      → CellIs x i v
      → (out : Bytes) × (encode_in_buffer r x i buffer ≡ ok out) × Wrote v buffer out
  unfolding encode_in_buffer
  cell-Wrote (lgl_sexp xs) i v buffer (a, e, h) = (
    encode_lgl r a buffer,
    write_elem-eq xs i a (encode_lgl r) buffer e,
    rw h (lgl-Wrote a buffer),
  )
  cell-Wrote (int_sexp xs) i v buffer (a, e, h, p) = (
    encode_int r a buffer,
    write_elem-eq xs i a (encode_int r) buffer e,
    rw h (int-Wrote a buffer p),
  )
  cell-Wrote (real_sexp xs) i v buffer (a, e, h, p) = (
    encode_real r a buffer,
    write_elem-eq xs i a (encode_real r) buffer e,
    rw h (real-Wrote a buffer p),
  )
  cell-Wrote (str_sexp xs) i v buffer (a, e, h) = (
    encode_str r a buffer,
    write_elem-eq xs i a (encode_str r) buffer e,
    rw h (str-Wrote a buffer),
  )
  cell-Wrote (other_sexp name n) i v buffer h = absurd h

  -- What the server has read of a buffer that ends within a row.
  abbrev pub ReadsTo : Bytes → Reading → Type 0
  ReadsTo buffer s = read_copy buffer ≡ s

  read-text :
      (buffer text : Bytes) (rows : List (List (Option Bytes))) (row : List (Option Bytes))
      (raw : Bytes) {v : Option Bytes}
      → ReadsTo buffer (reading rows row raw)
      → Shows v text
      → ReadsTo (buffer ++ text) (reading rows row (raw ++ text))
  unfolding read_copy read_bytes
  read-text buffer text rows row raw h sh =
      rw (foldl-append read_byte (reading [] [] []) buffer text, h)
        (unfold read_bytes in sh.taken rows row raw)

  -- The bytes that end a field.
  read-tab :
      (buffer : Bytes) (rows : List (List (Option Bytes))) (row : List (Option Bytes)) (raw : Bytes)
      → ReadsTo buffer (reading rows row raw)
      → ReadsTo (buffer ++ tab ∷ []) (reading rows (row ++ read_field raw ∷ []) [])
  unfolding read_copy read_bytes read_byte
  read-tab buffer rows row raw h =
      rw (foldl-append read_byte (reading [] [] []) buffer (tab ∷ []), h)

  read-newline :
      (buffer : Bytes) (rows : List (List (Option Bytes))) (row : List (Option Bytes)) (raw : Bytes)
      → ReadsTo buffer (reading rows row raw)
      → ReadsTo (buffer ++ newline ∷ []) (reading (rows ++ (row ++ read_field raw ∷ []) ∷ []) [] [])
  unfolding read_copy read_bytes read_byte
  read-newline buffer rows row raw h =
      rw (foldl-append read_byte (reading [] [] []) buffer (newline ∷ []), h)

  -- A row is written up to its newline, and read up to its last field.
  record WroteRow (rows : List (List (Option Bytes))) (row : List (Option Bytes))
      (o : Outcome Bytes) : Type 0 where
    out : Bytes
    wrote : o ≡ ok out
    before : List (Option Bytes)
    raw : Bytes
    reads : ReadsTo out (reading rows before raw)
    fields : before ++ read_field raw ∷ [] ≡ row

  fields-WroteRow :
      (x : Sexp Double CharSxp) (xs : List (Sexp Double CharSxp)) (i : ℕ) (vs : List (Option Bytes))
      (rows : List (List (Option Bytes))) (row : List (Option Bytes)) (buffer : Bytes)
      → RowIs (x ∷ xs) i vs
      → ReadsTo buffer (reading rows row [])
      → WroteRow rows (row ++ vs) (encode_fields r (x ∷ xs) i buffer (tab ∷ []))
  unfolding encode_fields
  fields-WroteRow x xs i [] rows row buffer h s = absurd h
  fields-WroteRow x [] i (v ∷ w ∷ vs) rows row buffer h s = absurd h.1
  fields-WroteRow x [] i (v ∷ []) rows row buffer h s =
      let (out, e, wr) = cell-Wrote x i v buffer h.0 in
      record {
        out = out;
        wrote = e;
        before = row;
        raw = wr.text;
        reads = rw wr.appended (read-text buffer wr.text rows row [] s wr.shows);
        fields = rw wr.shows.read;
      }
  fields-WroteRow x (y ∷ ys) i (v ∷ vs) rows row buffer h s =
      let (out, e, wr) = cell-Wrote x i v buffer h.0 in
      let after : ReadsTo (out ++ tab ∷ []) (reading rows (row ++ v ∷ []) []) =
        rw (wr.appended, ← wr.shows.read)
          (read-tab (buffer ++ wr.text) rows row wr.text
            (read-text buffer wr.text rows row [] s wr.shows)) in
      rw (e, ← append_assoc row (v ∷ []) vs)
        (fields-WroteRow y ys i vs rows (row ++ v ∷ []) (out ++ tab ∷ []) h.1 after)

  pub rows-read :
      (x : Sexp Double CharSxp) (xs : List (Sexp Double CharSxp)) (i : ℕ)
      (done table : List (List (Option Bytes))) (buffer : Bytes)
      → RowsAre (x ∷ xs) i table
      → ReadsTo buffer (reading done [] [])
      → (out : Bytes) × (encode_rows r (x ∷ xs) i (length table) buffer ≡ ok out)
        × ReadsTo out (reading (done ++ table) [] [])
  unfolding encode_rows encode_row_in_buffer
  rows-read x xs i done [] buffer h s = (buffer, refl, rw (append-nil done) s)
  rows-read x xs i done (row ∷ table) buffer h s =
      let w = fields-WroteRow x xs i row done [] buffer h.0 s in
      let after : ReadsTo (w.out ++ newline ∷ []) (reading (done ++ row ∷ []) [] []) =
        rw (← w.fields) (read-newline w.out done w.before w.raw w.reads) in
      let (out, e, reads) =
        rows-read x xs (i + 1) (done ++ row ∷ []) table (w.out ++ newline ∷ []) h.1 after in
      (out, rw w.wrote e, rw (← append_assoc done (row ∷ []) table) reads)

  -- A data frame whose cells are all there and whose numbers print without being cut off is encoded,
  -- and the server reads from the text exactly its rows, each cell as text or as NULL, with nothing
  -- left over: no cell can end a field or a row, and a string `\N` is not taken for NULL.
  pub read_copy-encode_data_frame :
      (x : Sexp Double CharSxp) (xs : List (Sexp Double CharSxp))
      (table : List (List (Option Bytes)))
      → sexp_length x ≡ length table
      → RowsAre (x ∷ xs) 0 table
      → (out : Bytes) × (encode_data_frame r (x ∷ xs) ≡ ok out)
        × (read_copy out ≡ reading table [] [])
  unfolding encode_data_frame
  read_copy-encode_data_frame x xs table n h =
      rw n (rows-read x xs 0 [] table [] h (unfold read_copy read_bytes in refl))
