-- ===== src/Prelude/Outcome.antt =====
-- What a call of the C++ code comes to: a value, an R error raised by `cpp11::stop`, or behaviour
-- that the language leaves undefined (a read past the end of a vector, a null pointer).
use Prim.Native.String.{String}

pub data Outcome {ℓ} (A : Type ℓ) : Type ℓ where
  ok : A → Outcome A
  stop : String → Outcome A
  undefined : Outcome A

-- An error or undefined behaviour ends the call.
infixl 5 ◌>>=◌
abbrev pub ◌>>=◌ {ℓ κ} : {A : Type ℓ} {B : Type κ} → Outcome A → (A → Outcome B) → Outcome B
undefined >>= next = undefined
stop message >>= next = stop message
ok value >>= next = next value
