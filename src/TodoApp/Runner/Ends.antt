-- ===== src/TodoApp/Runner/Ends.antt =====
-- How the test program ends when the page cannot be closed.
use fizzbee_mbt_examples.Prelude.{none, some, false, Text, codes, ok, throw, ◌≡◌, refl}
use fizzbee_mbt_examples.Browser.{Playwright, ArgType}
use fizzbee_mbt_examples.Mbt.{Mbt, unhandled}
use fizzbee_mbt_examples.TodoApp.Lifecycle
use fizzbee_mbt_examples.TodoApp.Lifecycle.{Sqlite, Model, RoleAdapter, role_close_all, cleanup_all}
use fizzbee_mbt_examples.TodoApp.Runner.{ActionFunc, action_registry, test_todo}

module _ (PW : Playwright) (AT : ArgType) (DB : Sqlite PW.World)
    (M : Mbt (Model PW DB) (ActionFunc PW.World AT.Arg)) (w : PW.World) (b : PW.Browser)
    (c : PW.Context) (p : PW.Page) (s : Model PW DB)
    (passed : M.run_tests
        (action_registry PW.World AT.Arg)
        Lifecycle.get_test_options
        (record { role = none; world = w })
      ≡ (ok tt, s))
    (held : (M.log (codes "All tests passed.") s).role
      ≡ some (record { browser = some b; context = some c; page = some p })) where
  -- When the tests pass and the role then holds an open page, a context and a browser, but the page
  -- cannot be closed: the rejection is not handled, and neither the context nor the browser is
  -- closed: the world is that in which closing the page failed.
  pub passed_leaks :
      (w1 : PW.World) (e : Text)
      → PW.is_closed p (M.log (codes "All tests passed.") s).world ≡ false
      → PW.close_page p (M.log (codes "All tests passed.") s).world ≡ (throw e, w1)
      → test_todo PW AT DB M w
        ≡ (unhandled e, record (M.log (codes "All tests passed.") s) { world = w1 })
  unfolding test_todo cleanup_all role_close_all
  passed_leaks w1 e shown fails = rw (passed, held, shown, fails) refl
