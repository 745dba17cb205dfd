-- ===== src/Prelude/Leaves.antt =====
-- Properties of the state that a method leaves, whether it returns or fails, from those of its parts.
use rpostgres.Prelude.{◌≡◌, Bool, true, false, Option, none, some, if◌then◌else◌}
use rpostgres.Prelude.Outcome.{Outcome, ok, stop, undefined}
use rpostgres.Prelude.Step.{Step, continue, when}

-- What is left after a method: `P` of the state that it leaves.
abbrev pub Leaves : {S A : Type 0} → (S → Type 0) → Outcome A × S → Type 0
Leaves P x = P x.1

module _ {S : Type 0} (P : S → Type 0) where
  pub continue-Leaves :
      {A B : Type 0} (x : Outcome A × S) (next : A → Step S B)
      → Leaves P x
      → ((a : A) (s : S) → P s → Leaves P (next a s))
      → Leaves P (continue x next)
  continue-Leaves (ok a, s) next p h = h a s p
  continue-Leaves (stop message, s) next p h = p
  continue-Leaves (undefined, s) next p h = p

  pub if-Leaves :
      {A : Type 0} (b : Bool) (x y : Outcome A × S)
      → Leaves P x
      → Leaves P y
      → Leaves P (if b then x else y)
  if-Leaves true x y p q = p
  if-Leaves false x y p q = q

  pub if_false-Leaves :
      {A : Type 0} (b : Bool) (x y : Outcome A × S)
      → b ≡ false
      → Leaves P y
      → Leaves P (if b then x else y)
  if_false-Leaves b x y e q = rw e q

  pub if_step-Leaves :
      {A : Type 0} (b : Bool) (m k : Step S A) (s : S)
      → Leaves P (m s)
      → Leaves P (k s)
      → Leaves P ((if b then m else k) s)
  if_step-Leaves true m k s p q = p
  if_step-Leaves false m k s p q = q

  pub when-Leaves :
      (b : Bool) (m : Step S (Unit {0})) (s : S) → P s → Leaves P (m s) → Leaves P (when b m s)
  when-Leaves true m s p q = q
  when-Leaves false m s p q = p

  pub lift-Leaves :
      {A B : Type 0} (o : Outcome A) (a : A) (s : S) (next : A → Step S B)
      → o ≡ ok a
      → Leaves P (next a s)
      → Leaves P (continue (o, s) next)
  lift-Leaves o a s next e h = rw e h

  pub option-Leaves :
      {A B : Type 0} (o : Option B) (x y : Outcome A × S)
      → Leaves P x
      → Leaves P y
      → Leaves {A = A} P (elim o as (λ _. Outcome A × S) [ none ↦ x | some b ↦ y ])
  option-Leaves none x y p q = p
  option-Leaves (some b) x y p q = q

  -- What follows a method that has `P` hold where it fails has it hold afterwards, if it does so itself.
  unfoldable pub Fails : {A : Type 0} → Outcome A × S → Type 0
  Fails (ok a, s) = Unit
  Fails (stop message, s) = P s
  Fails (undefined, s) = P s

  pub continue-anyhow :
      {A B : Type 0} (x : Outcome A × S) (next : A → Step S B)
      → Fails x
      → ((a : A) (s : S) → Leaves P (next a s))
      → Leaves P (continue x next)
  unfolding Fails
  continue-anyhow (ok a, s) next p h = h a s
  continue-anyhow (stop message, s) next p h = p
  continue-anyhow (undefined, s) next p h = p

  pub Leaves-Fails : {A : Type 0} (x : Outcome A × S) → Leaves P x → Fails x
  unfolding Fails
  Leaves-Fails (ok a, s) p = tt
  Leaves-Fails (stop message, s) p = p
  Leaves-Fails (undefined, s) p = p
