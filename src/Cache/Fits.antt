-- ===== src/Cache/Fits.antt =====
-- Results that the cache of src/PqResultImpl.cpp takes as they are.
use rpostgres.Prelude.{
  ℕ, zero, suc, ◌≡◌, refl, true, List, [], ◌∷◌, ◌==◌, ◌⊎◌, inl, inr, arith, Bool-cases,
  if◌then◌else◌,
}
use rpostgres.Prelude.Outcome.{ok}
use rpostgres.Runtime.{Bytes}
use rpostgres.Libpq.{PgResult}
use rpostgres.DataSource.{text_eq}
use rpostgres.Cache.{Cache, set, same_names, same_oids}

text_eq_refl : (text : Bytes) → text_eq text text ≡ true
unfolding text_eq
text_eq_refl [] = refl
text_eq_refl (c ∷ text) = ground (arith, text_eq_refl text)

same_names_refl : (names : List Bytes) → same_names names names ≡ true
unfolding same_names
same_names_refl [] = refl
same_names_refl (name ∷ names) = ground (arith, text_eq_refl name, same_names_refl names)

same_oids_refl : (oids : List ℕ) → same_oids oids oids ≡ true
unfolding same_oids
same_oids_refl [] = refl
same_oids_refl (oid ∷ oids) = ground (arith, same_oids_refl oids)

-- The result has no columns, or those that the cache was set from; and no parameters, if the cache has
-- none.
pub record Fits (res : PgResult) (c : Cache) : Type 0 where
  pub columns :
      ((res.names ≡ []) × (res.oids ≡ []))
      ⊎ ((c.initialized ≡ true) × (res.names ≡ c.names) × (res.oids ≡ c.oids))
  pub no_params : c.nparams ≡ 0 → res.nparams ≡ 0

nparams_kept : (m n : ℕ) → (n ≡ 0 → m ≡ 0) → (if n == 0 then m else n) ≡ n
nparams_kept m zero h = h refl
nparams_kept m (suc n) h = ground arith

-- Such a result is accepted, and leaves the cache as it is.
pub set-Fits : (res : PgResult) (c : Cache) → Fits res c → set res c ≡ (ok tt, c)
unfolding set
set-Fits res c f =
    let n = nparams_kept res.nparams c.nparams f.no_params in
    elim f.columns [
      | inl (no_names, no_oids) ↦ elim (Bool-cases c.initialized) [
        | inl i ↦ ground (arith, n)
        | inr i ↦ ground (arith, n)
      ]
      | inr (i, names, oids) ↦
          ground (arith, n, i, names, oids, same_names_refl c.names, same_oids_refl c.oids)
    ]
