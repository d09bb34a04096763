-- ===== src/Mbt.antt =====
-- What the test programs use of `@fizzbee/mbt` and of Node: `runTests`, whose work on the model is a
-- parameter, the console, and how a process ends.
use fizzbee_mbt_examples.Prelude.{
  ℕ, List, Option, none, some, Text, map_get, Exec, Outcome, ok, throw,
}

-- Keyed by the role's type ("" means top-level model actions), then by the action's name.
abbrev pub Registry : Type 0 → Type 0
Registry F = List (Text × List (Text × F))

-- The registered function of an action.
abbrev pub registered : {F : Type 0} → Registry F → Text → Text → Option F
registered registry role action = elim (map_get role registry) [
  | none ↦ none
  | some actions ↦ map_get action actions
]

-- The state `S` holds the model and all that it works on.
pub record Mbt (S F : Type 0) : Type 0 where
  pub run_tests : Registry F → List (Text × ℕ) → Exec S (Unit {0})
  pub log : Text → S → S
  pub log_error : Text → Text → S → S

-- `exited_with_1` is `process.exit(1)`; `unhandled` is a rejection that nobody awaits.
pub data Exit : Type 0 where
  finished : Exit
  exited_with_1 : Exit
  unhandled : Text → Exit

-- A call of an `async` function that is the last one of the program and that is not awaited.
abbrev pub detached : {S : Type 0} → Outcome (Unit {0}) × S → Exit × S
detached (ok u, s) = (finished, s)
detached (throw e, s) = (unhandled e, s)
