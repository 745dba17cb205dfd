-- ===== src/Prelude/Step.antt =====
-- A method that reads and changes an object and may fail: what it changed before it failed stays.
use Prim.Native.String.{String}
use mathlib.Core.Path.{◌≡◌, refl}
use rpostgres.Prelude.{Bool, true, false}
use rpostgres.Prelude.Outcome.{Outcome, ok, stop, undefined}

abbrev pub Step : Type 0 → Type 0 → Type 0
Step S A = S → Outcome A × S

abbrev pub continue : {S A B : Type 0} → Outcome A × S → (A → Step S B) → Outcome B × S
continue (ok a, s) next = next a s
continue (stop message, s) next = (stop message, s)
continue (undefined, s) next = (undefined, s)

infixl 5 ◌>>=◌ ◌>>◌
abbrev pub ◌>>=◌ : {S A B : Type 0} → Step S A → (A → Step S B) → Step S B
◌>>=◌ m next s = continue (m s) next

abbrev pub ◌>>◌ : {S B : Type 0} → Step S (Unit {0}) → Step S B → Step S B
◌>>◌ m k s = continue (m s) (λ _. k)

abbrev pub return : {S A : Type 0} → A → Step S A
return a s = (ok a, s)

abbrev pub throw : {S A : Type 0} → String → Step S A
throw message s = (stop message, s)

abbrev pub get : {S A : Type 0} → (S → A) → Step S A
get field s = (ok (field s), s)

abbrev pub modify : {S : Type 0} → (S → S) → Step S (Unit {0})
modify change s = (ok tt, change s)

-- `if (test) body;`
abbrev pub when : {S : Type 0} → Bool → Step S (Unit {0}) → Step S (Unit {0})
when true body = body
when false body = return tt

abbrev pub lift : {S A : Type 0} → Outcome A → Step S A
lift o s = (o, s)

-- A step that succeeds, and what follows it.
pub after_ok :
    {S A B : Type 0} (x : Outcome A × S) (a : A) (s : S) (next : A → Step S B)
    → x ≡ (ok a, s)
    → continue x next ≡ next a s
after_ok x a s next e = rw e

pub continue_assoc :
    {S A B C : Type 0} (x : Outcome A × S) (f : A → Step S B) (g : B → Step S C)
    → continue (continue x f) g ≡ continue x (λ a s. continue (f a s) g)
continue_assoc (ok a, s) f g = refl
continue_assoc (stop message, s) f g = refl
continue_assoc (undefined, s) f g = refl
