-- ===== src/Prelude/Effects.antt =====
-- An `async` function that reads and writes a shared state and may throw. What was written before
-- a throw stays written, so the state comes back beside the error too.
use fizzbee_mbt_examples.Prelude.Strings.{Text}

-- A promise that is fulfilled with a value, or rejected with an `Error` of that message.
pub data Outcome {ℓ} (A : Type ℓ) : Type ℓ where
  ok : A → Outcome A
  throw : Text → Outcome A

abbrev pub Exec : Type 0 → Type 0 → Type 0
Exec S A = S → Outcome A × S

module _ {S A : Type 0} where
  abbrev pub pure : A → Exec S A
  pure a s = (ok a, s)

  abbrev pub raise : Text → Exec S A
  raise e s = (throw e, s)

module _ {S A B : Type 0} where
  abbrev pub continue : Outcome A × S → (A → Exec S B) → Outcome B × S
  continue (ok a, s) f = f a s
  continue (throw e, s) f = (throw e, s)

  infixl 5 ◌>>=◌ ◌>>◌
  abbrev pub ◌>>=◌ : Exec S A → (A → Exec S B) → Exec S B
  ◌>>=◌ m f s = continue (m s) f

  abbrev pub ◌>>◌ : Exec S A → Exec S B → Exec S B
  m >> n = m >>= λ _. n
