-- ===== src/TodoMvc/Runner.antt =====
-- examples/todomvc/fizztests: todomvc_interfaces.ts, the interfaces of the roles, and
-- todomvc_test.ts, the registry of their actions and the test program.
use fizzbee_mbt_examples.Prelude.{List, [], ◌∷◌, codes, Exec, Outcome, ok, throw}
use fizzbee_mbt_examples.Browser.{Playwright, ArgType}
use fizzbee_mbt_examples.Mbt.{Registry, Mbt, Exit, exited_with_1, detached}
use fizzbee_mbt_examples.TodoMvc.Controller.{
  action_user_adds_item, action_user_switches_filter, action_user_toggles_item,
  action_user_toggles_all, action_user_deletes_item, action_user_edits_item,
  action_user_clears_completed,
}
use fizzbee_mbt_examples.TodoMvc.Lifecycle
use fizzbee_mbt_examples.TodoMvc.Lifecycle.{Model, new_adapter}

-- The interface `TodoControllerRole`; those of the other two roles have no action.
pub record TodoControllerRole (S Arg : Type 0) : Type 0 where
  pub action_user_adds_item : List Arg → Exec S (Unit {0})
  pub action_user_switches_filter : List Arg → Exec S (Unit {0})
  pub action_user_toggles_item : List Arg → Exec S (Unit {0})
  pub action_user_toggles_all : List Arg → Exec S (Unit {0})
  pub action_user_deletes_item : List Arg → Exec S (Unit {0})
  pub action_user_edits_item : List Arg → Exec S (Unit {0})
  pub action_user_clears_completed : List Arg → Exec S (Unit {0})

abbrev pub ActionFunc : Type 0 → Type 0 → Type 0
ActionFunc S Arg = TodoControllerRole S Arg → List Arg → Exec S (Unit {0})

abbrev pub action_registry : (S Arg : Type 0) → Registry (ActionFunc S Arg)
action_registry S Arg =
    (codes "", [])
    ∷ (codes "TodoModel", [])
    ∷ (codes "TodoView", [])
    ∷ (
      codes "TodoController",
      (codes "UserAddsItem", λ inst args. inst.action_user_adds_item args)
          ∷ (codes "UserSwitchesFilter", λ inst args. inst.action_user_switches_filter args)
          ∷ (codes "UserTogglesItem", λ inst args. inst.action_user_toggles_item args)
          ∷ (codes "UserTogglesAll", λ inst args. inst.action_user_toggles_all args)
          ∷ (codes "UserDeletesItem", λ inst args. inst.action_user_deletes_item args)
          ∷ (codes "UserEditsItem", λ inst args. inst.action_user_edits_item args)
          ∷ (codes "UserClearsCompleted", λ inst args. inst.action_user_clears_completed args)
          ∷ [],
    )
    ∷ []

module _ (PW : Playwright) (AT : ArgType) where
  -- `TodoControllerRoleAdapter implements TodoControllerRole`, on its page.
  abbrev pub controller_role : PW.Page → TodoControllerRole PW.World AT.Arg
  controller_role p = record {
    action_user_adds_item = action_user_adds_item PW AT p;
    action_user_switches_filter = action_user_switches_filter PW AT p;
    action_user_toggles_item = action_user_toggles_item PW AT p;
    action_user_toggles_all = action_user_toggles_all PW AT p;
    action_user_deletes_item = action_user_deletes_item PW AT p;
    action_user_edits_item = action_user_edits_item PW AT p;
    action_user_clears_completed = action_user_clears_completed PW AT p;
  }

  module _ (M : Mbt (Model PW) (ActionFunc PW.World AT.Arg)) where
    -- What follows `await runTests(…)`.
    after_tests : Outcome (Unit {0}) × Model PW → Exit × Model PW
    after_tests (ok u, s) = detached (Lifecycle.cleanup_all PW s)
    after_tests (throw e, s) = (exited_with_1, M.log_error (codes "Test failed:") e s)

    -- `testTodomvc`, with the new model in a world.
    unfoldable pub test_todomvc : PW.World → Exit × Model PW
    unfolding after_tests
    test_todomvc w = after_tests (
        M.run_tests (action_registry PW.World AT.Arg) Lifecycle.get_test_options
          (record { self = new_adapter PW; world = w }))
