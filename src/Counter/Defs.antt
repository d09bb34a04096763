-- ===== src/Counter/Defs.antt =====
-- examples/fizzbee-mbt-quickstart/typescript/src/counter.ts: the interface of a counter.
use fizzbee_mbt_examples.Prelude.{Exec}
use fizzbee_mbt_examples.Prelude.Int.{ℤ}

-- A class that implements `Counter` is a value of this record; its methods run in the state `S`.
pub record Counter (S : Type 0) : Type 0 where
  pub inc : Exec S (Unit {0})
  pub dec : Exec S (Unit {0})
  pub get : Exec S ℤ
