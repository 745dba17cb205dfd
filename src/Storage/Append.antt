-- ===== src/Storage/Append.antt =====
-- `append_col` on a chunk of a column of one type: the value goes behind those that are there, or
-- into a new chunk, which then holds it alone.
use rpostgres.Prelude.{
  ℕ, zero, suc, ◌+◌, ◌-◌, ◌≡◌, ◌⊎◌, inl, inr, refl, sym, ap, subst, arith, true, false, Option,
  none, some, List, [], ◌∷◌, ◌++◌, append-nil, length, set, replicate, length-append, ltb, leb,
  if◌then◌else◌, ◌&&◌, ◌∙◌, Bool-cases,
}
use rpostgres.Prelude.Int.{ℤ}
use rpostgres.Prelude.Outcome.{Outcome, ok, ◌>>=◌}
use rpostgres.Runtime.{Runtime, Bytes}
use rpostgres.DataType.{DataType, dt_unknown, dt_bool, dt_int, dt_int64, dt_real, same_type}
use rpostgres.Storage.{
  Elem, unset, Storage, Source, Next, this, spillover, next_storage, allocate, get_new_capacity,
  new_storage, default_value, fill_default_value, fetch_value, append_null, spill, append_data,
  append_depth, append_col, desired_capacity,
}
use rpostgres.Storage.Contents.{Holds, within, over, cell_value, set-append, length-snoc, in_range}

-- The source of a column whose type is fixed, as PqColumnDataSource is.
abbrev pub typed : DataType → Option Bytes → Source
typed dt value = record { data_type = dt; decl_data_type = dt; value = value }

abbrev pub IsKnown : DataType → Type 0
IsKnown dt = same_type dt dt_unknown ≡ false

no_promotion :
    (dt : DataType)
    → ((same_type dt dt_int && same_type dt dt_int64) ≡ false)
      × ((same_type dt dt_int && same_type dt dt_real) ≡ false)
unfolding same_type
no_promotion dt_int = (refl, refl)
no_promotion dt = (refl, refl)

pub unknown_is : same_type dt_unknown dt_unknown ≡ true
unfolding same_type
unknown_is = refl

pub allocate-known :
    {D : Type 0} (n : ℕ) (dt : DataType) → IsKnown dt → allocate {D = D} n dt ≡ replicate n unset
unfolding allocate same_type
allocate-known n dt_bool h = refl
allocate-known n dt_unknown h = cc
allocate-known n dt h = refl

-- A new chunk has room for a value.
pub capacity_pos : (n_max desired : ℤ) → (k : ℕ) × (get_new_capacity n_max desired ≡ suc k)
unfolding get_new_capacity
capacity_pos n_max desired = (get_new_capacity n_max desired - 1, ground arith)

not_full {ℓ} :
    {A : Type ℓ} (p : List A) (o : A) (rest : List A)
    → leb (length (p ++ o ∷ rest)) (length p) ≡ false
not_full p o rest = ground (arith, length-append p (o ∷ rest))

snoc-replicate {ℓ} :
    {A : Type ℓ} (xs : List A) (k : ℕ) (d : A)
    → (xs ++ replicate k d) ++ d ∷ [] ≡ xs ++ d ∷ replicate k d
snoc-replicate (x ∷ xs) k d = ap (◌∷◌ x) (snoc-replicate xs k d)
snoc-replicate [] zero d = refl
snoc-replicate [] (suc k) d = ap (◌∷◌ d) (snoc-replicate [] k d)

known_or_unknown :
    {D : Type 0} {dt : DataType} (t : DataType) (items : List D)
    → (t ≡ dt) ⊎ ((t ≡ dt_unknown) × (items ≡ []))
    → (t ≡ dt) ⊎ (t ≡ dt_unknown)
known_or_unknown t items (inl e) = inl e
known_or_unknown t items (inr e) = inr e.0

module _ (r : Runtime) (dt : DataType) (known : IsKnown dt) where
  open r use {Double}

  -- A value written behind the others.
  pushed : Storage Double → Elem Double → Storage Double
  pushed s v = record s { items = set s.items s.i v; i = s.i + 1 }

  pushed-items :
      (v : Elem Double) (s : Storage Double) (vals rest : List (Elem Double))
      → s.items ≡ vals ++ unset ∷ rest
      → s.i ≡ length vals
      → (pushed s v).items ≡ (vals ++ v ∷ []) ++ rest
  unfolding pushed
  pushed-items v s vals rest items i = rw (items, i) (set-append vals unset v rest)

  pushed-i :
      (v : Elem Double) (s : Storage Double) (vals : List (Elem Double))
      → s.i ≡ length vals
      → (pushed s v).i ≡ length (vals ++ v ∷ [])
  unfolding pushed
  pushed-i v s vals i = rw i (length-snoc vals v)

  pushed-Holds :
      (d v : Elem Double) (s : Storage Double) (vals : List (Elem Double)) (k : ℕ)
      → s.items ≡ vals ++ unset ∷ replicate k unset
      → s.i ≡ length vals
      → s.dt ≡ dt
      → Holds r dt d (pushed s v) (vals ++ v ∷ [])
  pushed-Holds d v s vals zero items i type =
      over 0 (sym (append-nil _ ∙ pushed-items v s vals [] items i ∙ append-nil _))
        (pushed-i v s vals i) (inl (unfold pushed in type))
  pushed-Holds d v s vals (suc k) items i type =
      within k (pushed-items v s vals (replicate (suc k) unset) items i) (pushed-i v s vals i)
        (unfold pushed in type)

  -- A chunk with room takes a value.
  append_data-room :
      (s : Storage Double) (vals rest : List (Elem Double)) (text : Bytes) (v : Elem Double)
      (fuel : ℕ)
      → s.items ≡ vals ++ unset ∷ rest
      → s.i ≡ length vals
      → s.dt ≡ dt
      → fetch_value r dt text ≡ ok v
      → append_data r (suc fuel) s (typed dt (some text)) text ≡ ok (this (pushed s v))
  unfolding append_data pushed
  append_data-room s vals rest text v fuel items i type e =
      let has_room : leb (length s.items) s.i ≡ false = rw (items, i) (not_full vals unset rest) in
      simp (type, known, has_room, (no_promotion dt).0, (no_promotion dt).1, e)

  -- The calls on a full chunk, and on one of unknown type, are the same.
  to_new :
      (s : Storage Double) (text : Bytes) (fuel : ℕ)
      → leb (length s.items) s.i ≡ true
      → append_data r (suc fuel) s (typed dt (some text)) text ≡ (
          append_data r fuel (spill r s (typed dt (some text)) s.dt) (typed dt (some text)) text
          >>= λ next. ok (spillover (next_storage next)))
  unfolding append_data
  to_new s text fuel full = elim (Bool-cases (same_type s.dt dt_unknown)) [
    | inl e ↦ rw e
    | inr e ↦ simp (e, full)
  ]

  resolve :
      (new_dt : DataType)
      → (new_dt ≡ dt) ⊎ (new_dt ≡ dt_unknown)
      → (if same_type new_dt dt_unknown then dt else new_dt) ≡ dt
  resolve new_dt (inl e) = rw (e, known)
  resolve new_dt (inr e) = rw (e, unknown_is)

  -- The new chunk that a value of the type spills into.
  abbrev fresh : Storage Double → DataType → Option Bytes → Storage Double
  fresh s new_dt value = spill r s (typed dt value) new_dt

  fresh-empty :
      (s : Storage Double) (new_dt : DataType) (value : Option Bytes)
      → (new_dt ≡ dt) ⊎ (new_dt ≡ dt_unknown)
      → (k : ℕ) × ((fresh s new_dt value).items ≡ unset ∷ replicate k unset)
        × ((fresh s new_dt value).i ≡ 0)
        × ((fresh s new_dt value).dt ≡ dt)
  unfolding spill new_storage
  fresh-empty s new_dt value which =
      let (k, room) = capacity_pos s.n_max (desired_capacity r s) in
      let resolved = resolve new_dt which in
      (k, rw (resolved, allocate-known _ dt known, room), refl, resolved)

  -- A chunk that is full, or of unknown type, spills over into one that holds the value alone.
  append_data-full :
      (d : Elem Double) (s : Storage Double) (text : Bytes) (v : Elem Double) (fuel : ℕ)
      → (s.dt ≡ dt) ⊎ (s.dt ≡ dt_unknown)
      → leb (length s.items) s.i ≡ true
      → fetch_value r dt text ≡ ok v
      → (s' : Storage Double) × (append_data r (suc (suc fuel)) s (typed dt (some text)) text
          ≡ ok (spillover s'))
        × Holds r dt d s' (v ∷ [])
  append_data-full d s text v fuel which full e =
      let (k, items, i, type) = fresh-empty s s.dt (some text) which in
      let f = fresh s s.dt (some text) in
      (
        pushed f v,
        to_new s text (suc fuel) full
            ∙ ap (λ o. o >>= λ next. ok (spillover (next_storage next)))
                (append_data-room f [] (replicate k unset) text v fuel items i type e),
        pushed-Holds d v f [] k items i type,
      )

  -- What `append_col` makes of a chunk: a value more in it, or a new chunk with the value alone.
  pub data Appended (d v : Elem Double) (vals : List (Elem Double)) : Next Double → Type 0 where
    grown : (s : Storage Double) → Holds r dt d s (vals ++ v ∷ []) → Appended d v vals (this s)
    spilled : (s : Storage Double) → Holds r dt d s (v ∷ []) → Appended d v vals (spillover s)

  -- The result of a call on a chunk, and what it holds.
  pub record AppendedTo (d v : Elem Double) (vals : List (Elem Double)) (o : Outcome (Next Double))
      : Type 0 where
    pub next : Next Double
    pub returned : o ≡ ok next
    pub appended : Appended d v vals next

  over_full :
      (d : Elem Double) (s : Storage Double) (vals : List (Elem Double)) (k : ℕ)
      → vals ≡ s.items ++ replicate k d
      → s.i ≡ length vals
      → ltb s.i (length s.items) ≡ false
  over_full d s vals k items i =
      ground (arith, ap length items, length-append s.items (replicate k d))

  not_room :
      (d : Elem Double) (s : Storage Double) (vals : List (Elem Double)) (k : ℕ)
      → vals ≡ s.items ++ replicate k d
      → s.i ≡ length vals
      → leb (length s.items) s.i ≡ true
  not_room d s vals k items i =
      ground (arith, ap length items, length-append s.items (replicate k d))

  append_null-Appended :
      (d : Elem Double) (s : Storage Double) (vals : List (Elem Double))
      → default_value r dt ≡ ok d
      → Holds r dt d s vals
      → AppendedTo d d vals (append_null r s)
  unfolding append_null fill_default_value
  append_null-Appended d s vals hd (within k items i type) =
      let has_room : ltb s.i (length s.items) ≡ true =
        rw (items, i) (in_range vals unset (replicate k unset)) in
      let filled : default_value r s.dt ≡ ok d = rw type hd in
      record {
        next = this (pushed s d);
        returned = simp (has_room, filled) (unfold pushed in refl);
        appended = grown (pushed s d) (pushed-Holds d d s vals k items i type);
      }
  append_null-Appended d s vals hd (over k items i type) =
      let full : ltb s.i (length s.items) ≡ false = over_full d s vals k items i in
      let s' = record s { i = s.i + 1 } in
      record {
        next = this s';
        returned = simp full;
        appended =
            grown s' (
              over (suc k) (rw items (snoc-replicate s.items k d)) (rw i (length-snoc vals d))
                type);
      }

  append_data-Appended :
      (d v : Elem Double) (s : Storage Double) (vals : List (Elem Double)) (text : Bytes)
      → fetch_value r dt text ≡ ok v
      → Holds r dt d s vals
      → AppendedTo d v vals (append_data r append_depth s (typed dt (some text)) text)
  append_data-Appended d v s vals text e (within k items i type) = record {
    next = this (pushed s v);
    returned = append_data-room s vals (replicate k unset) text v 3 items i type e;
    appended = grown (pushed s v) (pushed-Holds d v s vals k items i type);
  }
  append_data-Appended d v s vals text e (over k items i type) =
      let (s', returned, h) =
        append_data-full d s text v 2 (known_or_unknown s.dt s.items type)
          (not_room d s vals k items i) e in
      record { next = spillover s'; returned = returned; appended = spilled s' h }

  same_value : (d v : Elem Double) → default_value r dt ≡ ok d → default_value r dt ≡ ok v → d ≡ v
  same_value d v a b = ground (arith, a, b)

  -- On a chunk that holds some values, `append_col` succeeds whenever the cell has a value, and
  -- the value goes behind the others or, alone, into the new chunk that is returned.
  pub append_col-Appended :
      (d v : Elem Double) (s : Storage Double) (vals : List (Elem Double)) (value : Option Bytes)
      → default_value r dt ≡ ok d
      → cell_value r dt value ≡ ok v
      → Holds r dt d s vals
      → AppendedTo d v vals (append_col r s (typed dt value))
  unfolding append_col
  append_col-Appended d v s vals none hd e h =
      subst (λ w. AppendedTo d w vals (append_null r s)) (same_value d v hd e)
        (append_null-Appended d s vals hd h)
  append_col-Appended d v s vals (some text) hd e h = append_data-Appended d v s vals text e h
