-- ===== src/TodoApp/Runner.antt =====
-- examples/todo-app/typescript/fizztests: todo_interfaces.ts, the interface of the role, and
-- todo_test.ts, the registry of its actions and the test program.
pub mod Ends
use fizzbee_mbt_examples.Prelude.{
  ℕ, List, [], ◌∷◌, Option, none, some, Text, codes, Exec, Outcome, ok, throw,
}
use fizzbee_mbt_examples.Browser.{Playwright, ArgType}
use fizzbee_mbt_examples.Mbt.{Registry, Mbt, Exit, exited_with_1, detached}
use fizzbee_mbt_examples.TodoApp.Actions.{
  Reply, action_create_todo, action_update_todo, action_delete_todo, action_pin_todo,
  action_un_pin_todo,
}
use fizzbee_mbt_examples.TodoApp.Actions.Reading.{action_read_todo, action_list_todo}
use fizzbee_mbt_examples.TodoApp.Lifecycle
use fizzbee_mbt_examples.TodoApp.Lifecycle.{Sqlite, Model}

-- The interface `TodoAppRole`.
pub record TodoAppRole (S Arg : Type 0) : Type 0 where
  pub action_create_todo : List Arg → Exec S Reply
  pub action_update_todo : List Arg → Exec S Reply
  pub action_delete_todo : List Arg → Exec S Reply
  pub action_read_todo : List Arg → Exec S Reply
  pub action_list_todo : List Arg → Exec S Reply
  pub action_pin_todo : List Arg → Exec S Reply
  pub action_un_pin_todo : List Arg → Exec S Reply

abbrev pub ActionFunc : Type 0 → Type 0 → Type 0
ActionFunc S Arg = TodoAppRole S Arg → List Arg → Exec S Reply

abbrev pub action_registry : (S Arg : Type 0) → Registry (ActionFunc S Arg)
action_registry S Arg =
    (codes "", [])
    ∷ (
      codes "TodoApp",
      (codes "CreateTodo", λ inst args. inst.action_create_todo args)
          ∷ (codes "UpdateTodo", λ inst args. inst.action_update_todo args)
          ∷ (codes "DeleteTodo", λ inst args. inst.action_delete_todo args)
          ∷ (codes "ReadTodo", λ inst args. inst.action_read_todo args)
          ∷ (codes "ListTodo", λ inst args. inst.action_list_todo args)
          ∷ (codes "PinTodo", λ inst args. inst.action_pin_todo args)
          ∷ (codes "UnPinTodo", λ inst args. inst.action_un_pin_todo args)
          ∷ [],
    )
    ∷ []

module _ (PW : Playwright) (AT : ArgType) where
  -- `TodoAppRoleAdapter implements TodoAppRole`, by its page.
  abbrev pub todo_app_role : Option PW.Page → TodoAppRole PW.World AT.Arg
  todo_app_role page = record {
    action_create_todo = action_create_todo PW AT page;
    action_update_todo = action_update_todo PW AT page;
    action_delete_todo = action_delete_todo PW AT page;
    action_read_todo = action_read_todo PW AT page;
    action_list_todo = action_list_todo PW AT page;
    action_pin_todo = action_pin_todo PW AT page;
    action_un_pin_todo = action_un_pin_todo PW AT page;
  }

  module _ (DB : Sqlite PW.World) (M : Mbt (Model PW DB) (ActionFunc PW.World AT.Arg)) where
    -- What follows `await runTests(…)`.
    after_tests : Outcome (Unit {0}) × Model PW DB → Exit × Model PW DB
    after_tests (ok u, s) =
        detached (Lifecycle.cleanup_all PW DB (M.log (codes "All tests passed.") s))
    after_tests (throw e, s) = (exited_with_1, M.log_error (codes "Test failed:") e s)

    -- `testTodo`, with the new model in a world.
    unfoldable pub test_todo : PW.World → Exit × Model PW DB
    unfolding after_tests
    test_todo w = after_tests (
        M.run_tests (action_registry PW.World AT.Arg) Lifecycle.get_test_options
          (record { role = none; world = w }))
