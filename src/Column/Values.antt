-- ===== src/Column/Values.antt =====
-- A column of one type gives back the values of its cells, in order, whatever the chunks.
use rpostgres.Prelude.{
  ◌+◌, ◌≡◌, inl, inr, refl, ap, ◌∙◌, arith, false, Option, none, some, List, [], ◌∷◌, ◌++◌, All,
  append_assoc, append-nil, length, replicate, length-append, length-replicate, Bool-cases,
}
use rpostgres.Prelude.Int.{ℤ, pos}
use rpostgres.Prelude.Outcome.{Outcome, ok, ◌>>=◌}
use rpostgres.Runtime.{Runtime, Bytes}
use rpostgres.DataType.{DataType, dt_unknown, dt_bool, same_type}
use rpostgres.Storage.{
  Elem, unset, Storage, Next, new_storage, allocate, get_data_type, get_new_capacity, default_value,
}
use rpostgres.Storage.Contents.{
  Holds, within, over, cell_value, IsNative, default-IsNative, fetch-IsNative, copy_to-Holds,
  split-at,
}
use rpostgres.Storage.Append.{
  typed, IsKnown, Appended, grown, spilled, append_col-Appended, allocate-known, capacity_pos,
  unknown_is,
}
use rpostgres.Column.{
  Column, new_column, finalize, get_type, all_storage, set_col_value, with_next, insert_type,
  copy_storages, column_sexp,
}

module _ (r : Runtime) (dt : DataType) (known : IsKnown dt) where
  open r use {Double}

  -- The chunks hold the values, one part after the other.
  abbrev pub ChunksHold : Elem Double → List (Storage Double) → List (Elem Double) → Type 0
  ChunksHold d [] vals = vals ≡ []
  ChunksHold d (s ∷ ss) vals =
      (front : List (Elem Double)) × (back : List (Elem Double)) × Holds r dt d s front
      × ChunksHold d ss back
      × (vals ≡ front ++ back)

  -- The values of the cells.
  abbrev pub ValuesAre : List (Option Bytes) → List (Elem Double) → Type 0
  ValuesAre [] [] = Unit
  ValuesAre [] (v ∷ vs) = ⊥
  ValuesAre (c ∷ cs) [] = ⊥
  ValuesAre (c ∷ cs) (v ∷ vs) = (cell_value r dt c ≡ ok v) × ValuesAre cs vs

  -- A column that holds the values, in a chain whose last chunk is of the column's type or unknown.
  pub record ColumnHolds (d : Elem Double) (c : Column Double) (vals : List (Elem Double))
      : Type 0 where
    pub front : List (Elem Double)
    pub back : List (Elem Double)
    pub earlier : ChunksHold d c.storage front
    pub latest : Holds r dt d c.last back
    pub together : vals ≡ front ++ back

  ChunksHold-append :
      (d : Elem Double) (ss : List (Storage Double)) (s : Storage Double)
      (vals more : List (Elem Double))
      → ChunksHold d ss vals
      → Holds r dt d s more
      → ChunksHold d (ss ++ s ∷ []) (vals ++ more)
  ChunksHold-append d [] s vals more e h = (more, [], h, refl, rw (e, append-nil more))
  ChunksHold-append d (t ∷ ss) s vals more (front, back, ht, hs, e) h = (
    front,
    back ++ more,
    ht,
    ChunksHold-append d ss s back more hs h,
    rw (e, append_assoc front back more),
  )

  All-append :
      (P : Elem Double → Type 0) (xs ys : List (Elem Double))
      → All P (xs ++ ys)
      → All P xs × All P ys
  All-append P [] ys h = (tt, h)
  All-append P (x ∷ xs) ys h = ((h.0, (All-append P xs ys h.1).0), (All-append P xs ys h.1).1)

  -- The chunks are copied one behind the other.
  copy_storages-lem :
      (d : Elem Double) (ss : List (Storage Double)) (vals p old rest : List (Elem Double))
      → default_value r dt ≡ ok d
      → ChunksHold d ss vals
      → All (IsNative r dt) vals
      → length old ≡ length vals
      → copy_storages r dt ss (p ++ (old ++ rest)) (length p) ≡ ok (p ++ (vals ++ rest))
  unfolding copy_storages
  copy_storages-lem d [] vals p [] rest hd h nat e = rw h
  copy_storages-lem d [] vals p (o ∷ old) rest hd h nat e = absurd (omega (arith, ap length h))
  copy_storages-lem d (s ∷ ss) vals p old rest hd (front, back, hs, hss, ev) nat e =
      let size : length old ≡ length front + length back = e ∙ rw ev (length-append front back) in
      let (o, o', cut, e₁, e₂) = split-at (length front) (length back) old size in
      let (nf, nb) = All-append (IsNative r dt) front back (rw ev at nat) in
      rw
        (
          cut,
          ev,
          append_assoc o o' rest,
          copy_to-Holds r dt d s front p o (o' ++ rest) hd hs nf e₁,
          ← length-append p front,
          ← append_assoc p front (o' ++ rest),
        )
        (copy_storages-lem d ss back (p ++ front) o' rest hd hss nb e₂
          ∙ rw (append_assoc p front (back ++ rest), append_assoc front back rest))

  -- A new column holds nothing.
  new_storage-Holds : (d : Elem Double) (n_max : ℤ) → Holds r dt d (new_storage dt (pos 0) n_max) []
  unfolding new_storage
  new_storage-Holds d n_max =
      let (k, room) = capacity_pos n_max (pos 0) in
      within k (rw (allocate-known (get_new_capacity n_max (pos 0)) dt known, room)) refl refl

  new_unknown-Holds :
      (d : Elem Double) (n_max : ℤ) → Holds r dt d (new_storage dt_unknown (pos 0) n_max) []
  unfolding new_storage allocate
  new_unknown-Holds d n_max = over 0 refl refl (inr (refl, refl))

  pub new_column-ColumnHolds :
      (d : Elem Double) (n_max : ℤ) → ColumnHolds d (new_column dt n_max) []
  unfolding new_column
  new_column-ColumnHolds d n_max = record {
    front = [];
    back = [];
    earlier = refl;
    latest = elim (Bool-cases (same_type dt dt_bool)) [
      | inl e ↦ rw e (new_unknown-Holds d n_max)
      | inr e ↦ rw e (new_storage-Holds d n_max)
    ];
    together = refl;
  }

  with_next-ColumnHolds :
      (d v : Elem Double) (c : Column Double) (vals : List (Elem Double)) (seen : List DataType)
      (h : ColumnHolds d c vals) {next : Next Double}
      → Appended r dt known d v h.back next
      → ColumnHolds d (with_next c seen next) (vals ++ v ∷ [])
  unfolding with_next
  with_next-ColumnHolds d v c vals seen h (grown s hs) = record {
    front = h.front;
    back = h.back ++ v ∷ [];
    earlier = h.earlier;
    latest = hs;
    together = rw h.together (append_assoc h.front h.back (v ∷ []));
  }
  with_next-ColumnHolds d v c vals seen h (spilled s hs) = record {
    front = h.front ++ h.back;
    back = v ∷ [];
    earlier = ChunksHold-append d c.storage c.last h.front h.back h.earlier h.latest;
    latest = hs;
    together = rw h.together;
  }

  -- `set_col_value` puts the cell's value behind the others.
  pub set_col_value-ColumnHolds :
      (d v : Elem Double) (c : Column Double) (vals : List (Elem Double)) (cell : Option Bytes)
      → default_value r dt ≡ ok d
      → cell_value r dt cell ≡ ok v
      → ColumnHolds d c vals
      → (c' : Column Double) × (set_col_value r c (typed dt cell) ≡ ok c')
        × ColumnHolds d c' (vals ++ v ∷ [])
  unfolding set_col_value
  set_col_value-ColumnHolds d v c vals cell hd hv h =
      let a = append_col-Appended r dt known d v c.last h.back cell hd hv h.latest in
      (
        with_next c (insert_type dt c.data_types_seen) a.next,
        rw a.returned refl,
        with_next-ColumnHolds d v c vals (insert_type dt c.data_types_seen) h a.appended,
      )

  -- A row after the other.
  unfoldable pub set_col_values : Column Double → List (Option Bytes) → Outcome (Column Double)
  set_col_values c [] = ok c
  set_col_values c (cell ∷ cells) =
      set_col_value r c (typed dt cell) >>= λ c'. set_col_values c' cells

  pub set_col_values-ColumnHolds :
      (d : Elem Double) (cells : List (Option Bytes)) (vals : List (Elem Double))
      (c : Column Double) (before : List (Elem Double))
      → default_value r dt ≡ ok d
      → ValuesAre cells vals
      → ColumnHolds d c before
      → (c' : Column Double) × (set_col_values c cells ≡ ok c') × ColumnHolds d c' (before ++ vals)
  unfolding set_col_values
  set_col_values-ColumnHolds d [] [] c before hd hv h = (c, refl, rw (append-nil before) h)
  set_col_values-ColumnHolds d [] (v ∷ vals) c before hd hv h = absurd hv
  set_col_values-ColumnHolds d (cell ∷ cells) [] c before hd hv h = absurd hv
  set_col_values-ColumnHolds d (cell ∷ cells) (v ∷ vals) c before hd hv h =
      let (c₁, e₁, h₁) = set_col_value-ColumnHolds d v c before cell hd hv.0 h in
      let (c₂, e₂, h₂) = set_col_values-ColumnHolds d cells vals c₁ (before ++ v ∷ []) hd hv.1 h₁ in
      (c₂, rw e₁ e₂, rw append_assoc at h₂)

  ValuesAre-IsNative :
      (cells : List (Option Bytes)) (vals : List (Elem Double))
      → ValuesAre cells vals
      → All (IsNative r dt) vals
  ValuesAre-IsNative [] [] h = tt
  ValuesAre-IsNative [] (v ∷ vals) h = absurd h
  ValuesAre-IsNative (c ∷ cells) [] h = absurd h
  ValuesAre-IsNative (none ∷ cells) (v ∷ vals) h =
      (default-IsNative r dt v h.0, ValuesAre-IsNative cells vals h.1)
  ValuesAre-IsNative (some text ∷ cells) (v ∷ vals) h =
      (fetch-IsNative r dt text v h.0, ValuesAre-IsNative cells vals h.1)

  chunk_type :
      (d : Elem Double) (s : Storage Double) (vals : List (Elem Double))
      → Holds r dt d s vals
      → same_type s.dt dt_unknown ≡ false
      → s.dt ≡ dt
  chunk_type d s vals (within k items i type) e = type
  chunk_type d s vals (over k items i (inl type)) e = type
  chunk_type d s vals (over k items i (inr type)) e =
      cc (ap (λ t. same_type t dt_unknown) type.0, unknown_is)

  -- The count of rows says nothing of the chunks.
  same_chunks :
      (d : Elem Double) (c : Column Double) (vals : List (Elem Double))
      → ColumnHolds d c vals
      → ColumnHolds d (record c { n = length vals }) vals
  same_chunks d c vals h = record {
    front = h.front;
    back = h.back;
    earlier = h.earlier;
    latest = h.latest;
    together = h.together;
  }

  copied :
      (d : Elem Double) (c : Column Double) (vals : List (Elem Double))
      → default_value r dt ≡ ok d
      → All (IsNative r dt) vals
      → ColumnHolds d c vals
      → copy_storages r dt (all_storage c) (replicate (length vals) unset) 0 ≡ ok vals
  copied d c vals hd nat h =
      let chunks : ChunksHold d (all_storage c) vals =
        rw h.together (ChunksHold-append d c.storage c.last h.front h.back h.earlier h.latest) in
      let run =
        copy_storages-lem d (all_storage c) vals [] (replicate (length vals) unset) [] hd chunks nat
          (length-replicate (length vals) unset) in
      rw (append-nil (replicate {A = Elem Double} (length vals) unset), append-nil vals) at run

  -- The type of the finished column.
  get_type-ColumnHolds :
      (d : Elem Double) (c : Column Double) (vals : List (Elem Double)) (cell : Option Bytes)
      → ColumnHolds d c vals
      → get_type c (typed dt cell) ≡ dt
  unfolding get_type get_data_type
  get_type-ColumnHolds d c vals cell h = elim (Bool-cases (same_type c.last.dt dt_unknown)) [
    | inl e ↦ rw e
    | inr e ↦ rw e (chunk_type d c.last h.back h.latest e)
  ]

  -- A column that is finished with as many rows as it holds becomes a vector of its type with
  -- exactly the values, in order.
  column_sexp-ColumnHolds :
      (d : Elem Double) (c : Column Double) (vals : List (Elem Double)) (cell : Option Bytes)
      → default_value r dt ≡ ok d
      → All (IsNative r dt) vals
      → ColumnHolds d c vals
      → column_sexp r (finalize c (length vals)) (typed dt cell) ≡ ok (dt, vals)
  unfolding column_sexp finalize
  column_sexp-ColumnHolds d c vals cell hd nat h = rw (
    get_type-ColumnHolds d (record c { n = length vals }) vals cell (same_chunks d c vals h),
    allocate-known (length vals) dt known,
    copied d c vals hd nat h,
  )

  -- A column of a known type that is given a row of cells after another, each of which has a value
  -- in that type, and is finished with their number, becomes the R vector of that type with the
  -- values of the cells in order: no chunk is lost, doubled or left unset, for every `n_max`.
  pub column_sexp-set_col_values :
      (n_max : ℤ) (d : Elem Double) (cells : List (Option Bytes)) (vals : List (Elem Double))
      (cell : Option Bytes)
      → default_value r dt ≡ ok d
      → ValuesAre cells vals
      → (set_col_values (new_column dt n_max) cells >>= λ c.
          column_sexp r (finalize c (length vals)) (typed dt cell))
        ≡ ok (dt, vals)
  column_sexp-set_col_values n_max d cells vals cell hd hv =
      let (c, e, h) =
        set_col_values-ColumnHolds d cells vals (new_column dt n_max) [] hd hv
          (new_column-ColumnHolds d n_max) in
      rw e (column_sexp-ColumnHolds d c vals cell hd (ValuesAre-IsNative cells vals hv) h)
