-- ===== src/Storage/Contents.antt =====
-- What a chunk of a column of one type holds, and that `copy_to` copies it out.
use rpostgres.Prelude.{
  ℕ, zero, suc, ◌+◌, ◌≡◌, ◌⊎◌, refl, sym, ap, arith, true, Option, none, some, List, [], ◌∷◌, ◌++◌,
  append_assoc, append-nil, length, set, replicate, All, length-append, length-replicate, ltb,
  lt→ltb, ◌∙◌, ◌≡⟨◌⟩◌, ◌∎,
}
use native.Mathlib.Nat.{suc-add, zero-add, add-zero}
use rpostgres.Prelude.Outcome.{Outcome, ok, stop, undefined, ◌>>=◌}
use rpostgres.Runtime.{Runtime, Bytes}
use rpostgres.DataType.{DataType, dt_unknown, dt_bool}
use rpostgres.Storage.{
  Elem, unset, Storage, default_value, fill_default_value, fetch_value, copy_value, fill_loop,
  copy_loop, copy_to,
}

-- A write at the end of a prefix.
pub set-append {ℓ} :
    {A : Type ℓ} (p : List A) (o v : A) (rest : List A)
    → set (p ++ o ∷ rest) (length p) v ≡ (p ++ v ∷ []) ++ rest
set-append [] o v rest = refl
set-append (x ∷ p) o v rest = ap (◌∷◌ x) (set-append p o v rest)

pub length-snoc {ℓ} : {A : Type ℓ} (p : List A) (v : A) → length p + 1 ≡ length (p ++ v ∷ [])
length-snoc [] v = omega arith
length-snoc (x ∷ p) v = omega (arith, length-snoc p v)

pub in_range {ℓ} :
    {A : Type ℓ} (p : List A) (o : A) (rest : List A)
    → ltb (length p) (length (p ++ o ∷ rest)) ≡ true
in_range p o rest = lt→ltb _ _ (omega (arith, length-append p (o ∷ rest)))

-- A list of n + k elements in its two parts.
pub split-at {ℓ} :
    {A : Type ℓ} (n k : ℕ) (xs : List A)
    → length xs ≡ n + k
    → (ys : List A) × (zs : List A) × (xs ≡ ys ++ zs) × (length ys ≡ n) × (length zs ≡ k)
split-at zero k xs e = ([], xs, refl, refl, e ∙ zero-add k)
split-at (suc n) k [] e = absurd (omega arith)
split-at (suc n) k (x ∷ xs) e =
    let (ys, zs, cut, e₁, e₂) = split-at n k xs (omega arith) in
    (x ∷ ys, zs, ap (◌∷◌ x) cut, ap suc e₁, e₂)

All-front {ℓ κ} : {A : Type ℓ} (P : A → Type κ) (xs ys : List A) → All P (xs ++ ys) → All P xs
All-front P [] ys h = tt
All-front P (x ∷ xs) ys h = (h.0, All-front P xs ys h.1)

module _ (r : Runtime) where
  open r use {Double}

  -- The value that a cell has in a column of type `dt`.
  abbrev pub cell_value : DataType → Option Bytes → Outcome (Elem Double)
  cell_value dt none = default_value r dt
  cell_value dt (some text) = fetch_value r dt text

  -- A chunk of a column of type `dt` whose NULL is `d` holds the values `vals`. While there is
  -- room they are the front of the vector; NULLs past the capacity are only counted. A chunk of
  -- unknown type has no vector and has seen NULLs only.
  pub data Holds (dt : DataType) (d : Elem Double) (s : Storage Double) (vals : List (Elem Double))
      : Type 0 where
    within :
        (k : ℕ)
        → s.items ≡ vals ++ unset ∷ replicate k unset
        → s.i ≡ length vals
        → s.dt ≡ dt
        → Holds dt d s vals
    over :
        (k : ℕ)
        → vals ≡ s.items ++ replicate k d
        → s.i ≡ length vals
        → (s.dt ≡ dt) ⊎ ((s.dt ≡ dt_unknown) × (s.items ≡ []))
        → Holds dt d s vals

  -- The type's own values are copied as they are.
  abbrev pub IsNative : DataType → Elem Double → Type 0
  IsNative dt v = copy_value r dt v ≡ ok v

  pub default-IsNative :
      (dt : DataType) (d : Elem Double) → default_value r dt ≡ ok d → IsNative dt d
  unfolding default_value copy_value
  default-IsNative dt_bool d e = ground arith
  default-IsNative dt d e = ground arith

  pub fetch-IsNative :
      (dt : DataType) (text : Bytes) (v : Elem Double)
      → fetch_value r dt text ≡ ok v
      → IsNative dt v
  unfolding fetch_value copy_value
  fetch-IsNative dt_bool text v e = ground arith
  fetch-IsNative dt text v e = ground arith

  abbrev plus : ℕ → List (Elem Double) × ℕ → Outcome (List (Elem Double) × ℕ)
  plus n (y, k) = ok (y, n + k)

  abbrev one_more : List (Elem Double) × ℕ → Outcome (List (Elem Double) × ℕ)
  one_more (y, k) = ok (y, suc k)

  -- What is counted in two goes.
  counts :
      (o : Outcome (List (Elem Double) × ℕ)) (n : ℕ)
      → ((o >>= plus n) >>= one_more) ≡ (o >>= plus (suc n))
  counts (ok (y, k)) n = ap (λ m. ok (y, m)) (sym (suc-add n k))
  counts (stop m) n = refl
  counts undefined n = refl

  counts-none : (o : Outcome (List (Elem Double) × ℕ)) → o ≡ (o >>= plus 0)
  counts-none (ok (y, k)) = ap (λ m. ok (y, m)) (sym (zero-add k))
  counts-none (stop m) = refl
  counts-none undefined = refl

  -- The first loop of `copy_to` over a front of values of the type.
  copy-front :
      (dt : DataType) (vs more : List (Elem Double)) (left : ℕ) (p old rest : List (Elem Double))
      → All (IsNative dt) vs
      → length old ≡ length vs
      → copy_loop r dt (vs ++ more) (length vs + left) (p ++ (old ++ rest)) (length p)
        ≡ (copy_loop r dt more left ((p ++ vs) ++ rest) (length (p ++ vs)) >>= plus (length vs))
  unfolding copy_loop
  copy-front dt [] more left p [] rest h e =
      rw (append-nil p, zero-add left)
        (counts-none (copy_loop r dt more left (p ++ rest) (length p)))
  copy-front dt [] more left p (o ∷ old) rest h e = absurd (omega arith)
  copy-front dt (v ∷ vs) more left p [] rest h e = absurd (omega arith)
  copy-front dt (v ∷ vs) more left p (o ∷ old) rest h e =
      rw
        (
          suc-add (length vs) left,
          in_range p o (old ++ rest),
          h.0,
          set-append p o v (old ++ rest),
          length-snoc p v,
          copy-front dt vs more left (p ++ v ∷ []) old rest h.1 (omega arith),
          append_assoc p (v ∷ []) vs,
        )
        (counts (copy_loop r dt more left ((p ++ v ∷ vs) ++ rest) (length (p ++ v ∷ vs)))
          (length vs))

  -- The second loop writes as many NULLs.
  fill-front :
      (dt : DataType) (d : Elem Double) (k : ℕ) (p old rest : List (Elem Double))
      → default_value r dt ≡ ok d
      → length old ≡ k
      → fill_loop r dt k (p ++ (old ++ rest)) (length p) ≡ ok (p ++ (replicate k d ++ rest), k)
  unfolding fill_loop fill_default_value
  fill-front dt d zero p [] rest hd e = refl
  fill-front dt d zero p (o ∷ old) rest hd e = absurd (omega arith)
  fill-front dt d (suc k) p [] rest hd e = absurd (omega arith)
  fill-front dt d (suc k) p (o ∷ old) rest hd e = rw (
    in_range p o (old ++ rest),
    hd,
    set-append p o d (old ++ rest),
    length-snoc p d,
    fill-front dt d k (p ++ d ∷ []) old rest hd (omega arith),
    append_assoc p (d ∷ []) (replicate k d ++ rest),
  )

  copy-none :
      (dt : DataType) (v : Elem Double) (more x : List (Elem Double)) (tgt : ℕ)
      → copy_loop r dt (v ∷ more) 0 x tgt ≡ ok (x, 0)
  unfolding copy_loop
  copy-none dt v more x tgt = refl

  copy-nil :
      (dt : DataType) (k : ℕ) (x : List (Elem Double)) (tgt : ℕ)
      → copy_loop r dt [] k x tgt ≡ fill_loop r dt k x tgt
  unfolding copy_loop
  copy-nil dt k x tgt = refl

  copy-within :
      (dt : DataType) (vs more : List (Elem Double)) (v : Elem Double)
      (p old rest : List (Elem Double))
      → All (IsNative dt) vs
      → length old ≡ length vs
      → copy_loop r dt (vs ++ v ∷ more) (length vs) (p ++ (old ++ rest)) (length p)
        ≡ ok (p ++ (vs ++ rest), length vs)
  copy-within dt vs more v p old rest h e =
      copy_loop r dt (vs ++ v ∷ more) (length vs) (p ++ (old ++ rest)) (length p)
      ≡⟨ ap (λ n. copy_loop r dt (vs ++ v ∷ more) n (p ++ (old ++ rest)) (length p))
          (sym (add-zero (length vs))) ⟩
        copy_loop r dt (vs ++ v ∷ more) (length vs + 0) (p ++ (old ++ rest)) (length p)
      ≡⟨ copy-front dt vs (v ∷ more) 0 p old rest h e ⟩
        (copy_loop r dt (v ∷ more) 0 ((p ++ vs) ++ rest) (length (p ++ vs)) >>= plus (length vs))
      ≡⟨ (rw (
        copy-none dt v more ((p ++ vs) ++ rest) (length (p ++ vs)),
        add-zero (length vs),
        append_assoc p vs rest,
      )) ⟩
        ok (p ++ (vs ++ rest), length vs) ∎

  copy-over :
      (dt : DataType) (d : Elem Double) (vs : List (Elem Double)) (k : ℕ)
      (p old old' rest : List (Elem Double))
      → default_value r dt ≡ ok d
      → All (IsNative dt) vs
      → length old ≡ length vs
      → length old' ≡ k
      → copy_loop r dt vs (length vs + k) (p ++ ((old ++ old') ++ rest)) (length p)
        ≡ ok (p ++ ((vs ++ replicate k d) ++ rest), length vs + k)
  copy-over dt d vs k p old old' rest hd h e e' =
      copy_loop r dt vs (length vs + k) (p ++ ((old ++ old') ++ rest)) (length p)
      ≡⟨ rw (append_assoc old old' rest) (
          ap (λ l. copy_loop r dt l (length vs + k) (p ++ (old ++ (old' ++ rest))) (length p))
            (sym (append-nil vs))) ⟩
        copy_loop r dt (vs ++ []) (length vs + k) (p ++ (old ++ (old' ++ rest))) (length p)
      ≡⟨ copy-front dt vs [] k p old (old' ++ rest) h e ⟩
        (copy_loop r dt [] k ((p ++ vs) ++ (old' ++ rest)) (length (p ++ vs)) >>= plus (length vs))
      ≡⟨ (rw (
        copy-nil dt k ((p ++ vs) ++ (old' ++ rest)) (length (p ++ vs)),
        fill-front dt d k (p ++ vs) old' rest hd e',
        append_assoc p vs (replicate k d ++ rest),
        append_assoc vs (replicate k d) rest,
      )) ⟩
        ok (p ++ ((vs ++ replicate k d) ++ rest), length vs + k) ∎

  -- `copy_to` writes the values of a chunk behind those that are there, and returns their number.
  pub copy_to-Holds :
      (dt : DataType) (d : Elem Double) (s : Storage Double) (vals p old rest : List (Elem Double))
      → default_value r dt ≡ ok d
      → Holds dt d s vals
      → All (IsNative dt) vals
      → length old ≡ length vals
      → copy_to r s (p ++ (old ++ rest)) dt (length p) ≡ ok (p ++ (vals ++ rest), length vals)
  unfolding copy_to
  copy_to-Holds dt d s vals p old rest hd (within k items i type) nat e =
      rw (items, i) (copy-within dt vals (replicate k unset) unset p old rest nat e)
  copy_to-Holds dt d s vals p old rest hd (over k items i type) nat e =
      let size : length vals ≡ length s.items + k =
        rw (items, length-append s.items (replicate k d), length-replicate k d) in
      let (o, o', cut, e₁, e₂) = split-at (length s.items) k old (e ∙ size) in
      rw (i, size, items, cut)
        (copy-over dt d s.items k p o o' rest hd
          (All-front (IsNative dt) s.items (replicate k d) (rw items at nat)) e₁ e₂)
