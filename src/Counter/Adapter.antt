-- ===== src/Counter/Adapter.antt =====
-- examples/fizzbee-mbt-quickstart/typescript/fizztests: the role adapter and the registry of
-- actions (counter_adapters.ts, counter_interfaces.ts, counter_test.ts), over any counter.
pub mod Refines
pub mod Model
pub mod Equal
use fizzbee_mbt_examples.Prelude.{
  List, [], ◌∷◌, Option, none, some, Text, codes, map_get, Exec, Outcome, ok, throw, raise, pure,
  ◌>>=◌, ◌>>◌,
}
use fizzbee_mbt_examples.Prelude.Int.{ℤ}
use fizzbee_mbt_examples.Counter.Defs.{Counter}
use fizzbee_mbt_examples.Counter.Spec
use fizzbee_mbt_examples.Counter.Spec.{Action}

-- What an action of the adapter resolves to.
pub data Reply : Type 0 where
  undefined : Reply
  number : ℤ → Reply

-- `Arg` is a type of the package `@fizzbee/mbt`; the adapter reads no argument.
module _ (Arg : Type 0) where
  -- The interface `CounterRole`.
  pub record CounterRole (S : Type 0) : Type 0 where
    pub action_inc : List Arg → Exec S Reply
    pub action_get : List Arg → Exec S Reply
    pub action_dec : List Arg → Exec S Reply

  module _ {S : Type 0} (c : Counter S) where
    unfoldable pub action_inc : List Arg → Exec S Reply
    action_inc args = do c.inc; pure undefined

    unfoldable pub action_get : List Arg → Exec S Reply
    action_get args = do v ← c.get; pure (number v)

    unfoldable pub action_dec : List Arg → Exec S Reply
    action_dec args = do c.dec; pure undefined

  -- `new CounterRoleAdapter(counter)`
  abbrev pub counter_role_adapter : {S : Type 0} → Counter S → CounterRole S
  counter_role_adapter c = record {
    action_inc = action_inc c;
    action_get = action_get c;
    action_dec = action_dec c;
  }

  abbrev pub ActionFunc : Type 0 → Type 0
  ActionFunc S = CounterRole S → List Arg → Exec S Reply

  -- Keyed by the role's type, then by the action's name.
  abbrev pub action_registry : (S : Type 0) → List (Text × List (Text × ActionFunc S))
  action_registry S =
      (codes "", [])
      ∷ (
        codes "Counter",
        (codes "Inc", λ inst args. inst.action_inc args)
            ∷ (codes "Get", λ inst args. inst.action_get args)
            ∷ (codes "Dec", λ inst args. inst.action_dec args)
            ∷ [],
      )
      ∷ []

abbrev pub action_name : Action → Text
action_name Spec.inc = codes "Inc"
action_name Spec.get = codes "Get"
action_name Spec.dec = codes "Dec"
