-- ===== src/Encode/Escape.antt =====
-- `escape_in_buffer`: what the server makes of escaped text, and of text that needs no escape.
use mathlib.Core.List.{foldl, foldl-append}
use rpostgres.Prelude.{
  Bool, true, false, if◌then◌else◌, ℕ, ◌≡◌, ◌≢◌, ◌⊎◌, inl, inr, refl, sym, ap, ◌∙◌, false, Option,
  none, some, List, [], ◌∷◌, ◌++◌, append_assoc, append-nil, arith, All,
}
use rpostgres.Runtime.{Bytes}
use rpostgres.Encode.{
  tab, newline, backslash, c_string, escape_char, escape_loop, escape_in_buffer, null_text,
}
use rpostgres.Encode.Copy.{
  Unescaping, control, unescape, unescape_byte, is_null_marker, read_field, reading, read_byte,
  read_bytes, unescape,
}

-- The escaped text, as a plain recursion.
unfoldable pub escape : Bytes → Bytes
unfolding escape_char
escape [] = []
escape (c ∷ cs) = escape_char c ++ escape cs

escape_loop-eq : (cs buffer : Bytes) → escape_loop cs buffer ≡ buffer ++ escape cs
unfolding escape_loop escape
escape_loop-eq [] buffer = sym (append-nil buffer)
escape_loop-eq (c ∷ cs) buffer =
    escape_loop-eq cs (buffer ++ escape_char c) ∙ append_assoc buffer (escape_char c) (escape cs)

-- `escape_in_buffer` appends the escaped text.
pub escape_in_buffer-eq :
    (s buffer : Bytes) → escape_in_buffer s buffer ≡ buffer ++ escape (c_string s)
unfolding escape_in_buffer
escape_in_buffer-eq s buffer = escape_loop-eq (c_string s) buffer

abbrev unescaping : Bytes → Unescaping
unescaping out = record { escaped = false; out = out }

unescape_char :
    (c : ℕ) (out : Bytes)
    → foldl unescape_byte (unescaping out) (escape_char c) ≡ unescaping (out ++ c ∷ [])
unfolding unescape_byte escape_char control
unescape_char c out = ground arith

-- A byte is escaped to a backslash and one more byte, or is an ordinary byte and stays.
abbrev pub IsPlainByte : ℕ → Type 0
IsPlainByte c = (c ≢ tab) × (c ≢ newline) × (c ≢ backslash)

escape_char_cases :
    (c : ℕ)
    → ((d : ℕ) × (escape_char c ≡ backslash ∷ d ∷ []) × (d ≢ 78))
      ⊎ ((escape_char c ≡ c ∷ []) × IsPlainByte c)
unfolding escape_char
escape_char_cases c = ground arith

-- The reader takes the text whole into the field at hand.
abbrev pub IsTaken : Bytes → Type 0
IsTaken t =
    (rows : List (List (Option Bytes))) (row : List (Option Bytes)) (raw : Bytes)
    → read_bytes (reading rows row raw) t ≡ reading rows row (raw ++ t)

pub IsTaken-nil : IsTaken []
unfolding read_bytes
IsTaken-nil rows row raw = ap (reading rows row) (sym (append-nil raw))

pub IsTaken-append : (s t : Bytes) → IsTaken s → IsTaken t → IsTaken (s ++ t)
unfolding read_bytes
IsTaken-append s t hs ht rows row raw = rw (
  foldl-append read_byte (reading rows row raw) s t,
  hs rows row raw,
  ht rows row (raw ++ s),
  append_assoc raw s t,
)

pub IsTaken-plain : (c : ℕ) → IsPlainByte c → IsTaken (c ∷ [])
unfolding read_bytes read_byte
IsTaken-plain c h rows row raw = ground arith

pub IsTaken-escaped : (d : ℕ) → IsTaken (backslash ∷ d ∷ [])
unfolding read_bytes read_byte
IsTaken-escaped d rows row raw = ground (arith, append_assoc raw (backslash ∷ []) (d ∷ []))

pub escape-IsTaken : (s : Bytes) → IsTaken (escape s)
unfolding escape
escape-IsTaken [] = IsTaken-nil
escape-IsTaken (c ∷ cs) = IsTaken-append (escape_char c) (escape cs) taken (escape-IsTaken cs)
  where
    taken : IsTaken (escape_char c)
    taken = elim (escape_char_cases c) [
      | inl (d, e, _) ↦ rw e (IsTaken-escaped d)
      | inr (e, p) ↦ rw e (IsTaken-plain c p)
    ]

pub plain-IsTaken : (t : Bytes) → All IsPlainByte t → IsTaken t
plain-IsTaken [] h = IsTaken-nil
plain-IsTaken (c ∷ cs) h = IsTaken-append (c ∷ []) cs (IsTaken-plain c h.0) (plain-IsTaken cs h.1)

pub unescape_escape :
    (s out : Bytes) → foldl unescape_byte (unescaping out) (escape s) ≡ unescaping (out ++ s)
unfolding escape
unescape_escape [] out = ap unescaping (sym (append-nil out))
unescape_escape (c ∷ cs) out = rw (
  foldl-append unescape_byte (unescaping out) (escape_char c) (escape cs),
  unescape_char c out,
  unescape_escape cs (out ++ c ∷ []),
  append_assoc out (c ∷ []) cs,
)

pub unescape_plain :
    (t out : Bytes)
    → All IsPlainByte t
    → foldl unescape_byte (unescaping out) t ≡ unescaping (out ++ t)
unfolding unescape_byte
unescape_plain [] out h = ap unescaping (sym (append-nil out))
unescape_plain (c ∷ cs) out h =
    ground (arith, unescape_plain cs (out ++ c ∷ []) h.1, append_assoc out (c ∷ []) cs)

pub plain_not_null : (t : Bytes) → All IsPlainByte t → is_null_marker t ≡ false
unfolding is_null_marker
plain_not_null [] h = refl
plain_not_null (c ∷ []) h = refl
plain_not_null (c ∷ d ∷ []) h = ground arith
plain_not_null (c ∷ d ∷ e ∷ t) h = refl

pub escape_not_null : (s : Bytes) → is_null_marker (escape s) ≡ false
unfolding is_null_marker escape escape_char
escape_not_null [] = refl
escape_not_null (c ∷ []) = ground arith
escape_not_null (c ∷ d ∷ cs) = ground arith

-- A field whose text is taken whole, and which is then read as the value.
pub record Shows (value : Option Bytes) (text : Bytes) : Type 0 where
  pub taken : IsTaken text
  pub read : read_field text ≡ value

unescape-escape : (s : Bytes) → unescape (escape s) ≡ s
unfolding unescape
unescape-escape s = ap (λ u. u.out) (unescape_escape s [])

unescape-plain : (t : Bytes) → All IsPlainByte t → unescape t ≡ t
unfolding unescape
unescape-plain t h = ap (λ u. u.out) (unescape_plain t [] h)

pub escape-Shows : (s : Bytes) → Shows (some s) (escape s)
unfolding read_field
escape-Shows s = record {
  taken = escape-IsTaken s;
  read = rw (escape_not_null s, unescape-escape s);
}

pub plain-Shows : (t : Bytes) → All IsPlainByte t → Shows (some t) t
unfolding read_field
plain-Shows t h = record {
  taken = plain-IsTaken t h;
  read = rw (plain_not_null t h, unescape-plain t h);
}

pub null-Shows : Shows none null_text
unfolding read_field is_null_marker
null-Shows = record { taken = IsTaken-escaped 78; read = refl }

pub if-Shows :
    (b : Bool) {v w : Option Bytes} {s t : Bytes}
    → (b ≡ true → Shows v s)
    → (b ≡ false → Shows w t)
    → Shows (if b then v else w) (if b then s else t)
if-Shows true hs ht = hs refl
if-Shows false hs ht = ht refl
