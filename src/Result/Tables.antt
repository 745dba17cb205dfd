-- ===== src/Result/Tables.antt =====
-- `fetch` of src/PqResultImpl.cpp on a query whose rows make a table of typed columns.
use Prim.Native.String.{String}
use rpostgres.Prelude.{
  ℕ, suc, ◌<◌, ◌≤◌, ◌≡◌, sym, ◌∙◌, ap, subst, Bool, true, false, ◌&&◌, List, ◌∷◌, arith,
  if◌then◌else◌, length, take, min, map, ◌==◌,
}
use rpostgres.Prelude.Int.{ℤ, pos, ltb_ℤ, pos_part, ◌==ℤ◌}
use rpostgres.Prelude.Outcome.{Outcome, ok}
use rpostgres.Prelude.Step.{after_ok}
use rpostgres.Runtime.{Runtime, Bytes}
use rpostgres.Libpq.{Libpq}
use rpostgres.DataType.{DataType}
use rpostgres.Frame.{Frame, FrameData, new_frame, get_data}
use rpostgres.Frame.Rows.{Typed, HaveRows, rows_of, set_rows, get_data-set_rows, bind_ok}
use rpostgres.Frame.Slices.{
  take_typed, take-rows_of, HaveRows-take, types-take, vectors-take, first_values, length-rows_of,
}
use rpostgres.Result.{Impl}
use rpostgres.Result.Fetch.{
  Fetched, add_oids, fetch_loop, fetch_rows, fetch, columns_of, add_to_fetched,
}
use rpostgres.Result.Delivery.{Holds}
use rpostgres.Result.Fetching.{has_room, fit, Took, fetch_loop-Took}

not_zero : (n : ℕ) → (suc n == 0) ≡ false
not_zero n = ground arith

and_false : (a b : Bool) → b ≡ false → (a && b) ≡ false
and_false a b h = ground arith

-- The number of rows that a fetch of `n_max` takes of `n`.
abbrev pub rows_taken : ℤ → ℕ → ℕ
rows_taken n_max n = if ltb_ℤ n_max (pos 0) then n else min (pos_part n_max) n

pub rows_taken-le : (n_max : ℤ) (n : ℕ) → rows_taken n_max n ≤ n
rows_taken-le n_max n = ground arith

module _ (r : Runtime) (L : Libpq) (format : String → List ℤ → String) (fuel rounds : ℕ) where
  open r use {Double}

  fetch_rows-eq :
      (left : ℕ) (n_max : ℤ) (s t : Impl L) (f' : Frame Double) (d : FrameData Double)
      → (length s.cache.types == 0) ≡ false
      → fetch_loop r L format fuel rounds left (columns_of r L format s n_max) s ≡ (ok f', t)
      → get_data r f' ≡ ok d
      → fetch_rows r L format fuel rounds left n_max s ≡ (ok (add_oids r L format d t), t)
  unfolding fetch_rows
  fetch_rows-eq left n_max s t f' d z loop e =
      rw (and_false s.complete (length s.cache.types == 0) z) (
        after_ok (fetch_loop r L format fuel rounds left (columns_of r L format s n_max) s) f' t
          (add_to_fetched r L format) loop
        ∙ (rw e))

  fetch-eq :
      (left : ℕ) (n_max : ℤ) (s : Impl L)
      → s.ready ≡ true
      → (n_max ==ℤ pos 0) ≡ false
      → fetch r L format fuel rounds left n_max s ≡ fetch_rows r L format fuel rounds left n_max s
  unfolding fetch
  fetch-eq left n_max s h z = simp (h, z)

  has_room-new :
      (names : List Bytes) (n_max : ℤ) (types : List DataType)
      → (n_max ==ℤ pos 0) ≡ false
      → has_room {D = Double} (new_frame names n_max types) ≡ true
  unfolding has_room new_frame
  has_room-new names n_max types z = ground arith

  fit-new :
      (names : List Bytes) (n_max : ℤ) (types : List DataType) (n : ℕ)
      → fit {D = Double} (new_frame names n_max types) n ≡ rows_taken n_max n
  unfolding fit new_frame
  fit-new names n_max types n = ground arith

  module _ (col : Typed r) (cols : List (Typed r)) (n : ℕ) (have : HaveRows r n (col ∷ cols)) where
    abbrev pub dts : List DataType
    dts = map (λ (c : Typed r). c.dt) (col ∷ cols)

    -- The query has the rows of the table still to give, and knows its columns' types.
    pub record HasTable (s : Impl L) : Type 0 where
      pub ready : s.ready ≡ true
      pub types : s.cache.types ≡ dts
      pub rows : Holds L fuel rounds (rows_of r n (col ∷ cols)) s

    -- What a fetch gives: a data frame with the first values of each column, and a query that has
    -- the rows after them still to give.
    pub record Fetches (n_max : ℤ) (s : Impl L) (x : Outcome (Fetched Double) × Impl L)
        : Type 0 where
      pub fetched : Fetched Double
      pub after : Impl L
      pub returns : x ≡ (ok fetched, after)
      pub vectors : fetched.frame.vectors ≡ map (first_values r (rows_taken n_max n)) (col ∷ cols)
      pub row_count : fetched.frame.row_count ≡ rows_taken n_max n
      pub names : fetched.frame.names ≡ s.cache.names
      pub took : Took r L format fuel rounds (rows_of r n (col ∷ cols)) (rows_taken n_max n) s after

    -- The frame that a fetch of `k` rows fills, and the data made of it.
    filled_frame :
        (k : ℕ) (n_max : ℤ) (names : List Bytes)
        → k ≤ n
        → (f' : Frame Double) × (d : FrameData Double) × (set_rows r
              (new_frame names n_max dts)
              (take k (rows_of r n (col ∷ cols)))
            ≡ ok f')
          × (get_data r f' ≡ ok d)
          × (d.vectors ≡ map (first_values r k) (col ∷ cols))
          × (d.row_count ≡ k)
          × (d.names ≡ names)
    filled_frame k n_max names h =
        let (d, e, v, c, m) =
          get_data-set_rows r k n_max names (map (take_typed r k) (col ∷ cols))
            (HaveRows-take r k n (col ∷ cols) h have) in
        let (f', e1, e2) =
          bind_ok
            (set_rows r
              (new_frame names n_max
                (map (λ (c : Typed r). c.dt) (map (take_typed r k) (col ∷ cols))))
              (rows_of r k (map (take_typed r k) (col ∷ cols))))
            (get_data r) d e in
        (
          f',
          d,
          ap (λ ts. set_rows r (new_frame names n_max ts) (take k (rows_of r n (col ∷ cols))))
                (sym (types-take r k (col ∷ cols)))
              ∙ ap
                  (set_rows r (
                    new_frame names n_max
                      (map (λ (c : Typed r). c.dt) (map (take_typed r k) (col ∷ cols)))))
                  (take-rows_of r k n (col ∷ cols) h)
              ∙ e1,
          e2,
          v ∙ vectors-take r k (col ∷ cols),
          c,
          m,
        )

    -- Where a query that is ready has the table's `n` rows still to give, and knows the columns'
    -- types, a fetch of a number of rows that is not 0, with fuel for more than `n` rows, returns the
    -- data frame of the first rows, as many as were asked for, or all if the number is larger or
    -- negative, and leaves the query with exactly the rows after them.
    pub fetch-Fetches :
        (left : ℕ) (n_max : ℤ) (s : Impl L)
        → n < left
        → (n_max ==ℤ pos 0) ≡ false
        → HasTable s
        → Fetches n_max s (fetch r L format fuel rounds left n_max s)
    unfolding add_oids
    fetch-Fetches left n_max s h z has =
        let k = rows_taken n_max n in
        let rows = rows_of r n (col ∷ cols) in
        let frame : Frame Double = columns_of r L format s n_max in
        let all = length-rows_of r n (col ∷ cols) have in
        let (f', d, e, e', v, c, m) = filled_frame k n_max s.cache.names (rows_taken-le n_max n) in
        let k_is : fit frame (length rows) ≡ k =
          ap (fit frame) all ∙ fit-new s.cache.names n_max s.cache.types n in
        let e1 : set_rows r frame (take k rows) ≡ ok f' =
          subst (λ ts. set_rows r (new_frame s.cache.names n_max ts) (take k rows) ≡ ok f')
            (sym has.types) e in
        let e2 : set_rows r frame (take (fit frame (length rows)) rows) ≡ ok f' =
          subst (λ j. set_rows r frame (take j rows) ≡ ok f') (sym k_is) e1 in
        let (t, loop, took) =
          fetch_loop-Took r L format fuel rounds left rows frame f' s (omega (arith, all))
            (has_room-new s.cache.names n_max s.cache.types z) has.rows e2 in
        record {
          fetched = add_oids r L format d t;
          after = t;
          returns =
              fetch-eq left n_max s has.ready z
              ∙ fetch_rows-eq left n_max s t f' d
                  (ap (λ ts. length ts == 0) has.types
                    ∙ not_zero (length (map (λ (c : Typed r). c.dt) cols)))
                  loop e';
          vectors = v;
          row_count = c;
          names = m;
          took = subst (λ j. Took r L format fuel rounds rows j s t) k_is took;
        }
