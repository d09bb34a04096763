-- ===== src/TodoApp/Conforms/Sessions/Suite.antt =====
-- The whole test program, with a runner that does runs which the specification allows.
use fizzbee_mbt_examples.Prelude.{List, Option, none, some, Text, ok, continue, ◌≡◌, refl, inl, inr}
use fizzbee_mbt_examples.Browser.{Playwright, ArgType}
use fizzbee_mbt_examples.Mbt.{Mbt, finished}
use fizzbee_mbt_examples.TodoApp.Spec.{State, Action, Result}
use fizzbee_mbt_examples.TodoApp.Lifecycle.{
  Sqlite, Model, get_test_options, cleanup_all, role_close_all,
}
use fizzbee_mbt_examples.TodoApp.Runner.{ActionFunc, action_registry, test_todo}
use fizzbee_mbt_examples.TodoApp.Conforms.Sessions.{sessions, IsHost, Runs, role_with}
use fizzbee_mbt_examples.TodoApp.Conforms.Sessions.Replies.{sessions-replies}

module _ (PW : Playwright) (AT : ArgType) (DB : Sqlite PW.World) (Start : PW.World → Type 0)
    (Ready : PW.Browser → PW.Context → PW.World → Type 0)
    (Shows : PW.Browser → PW.Context → PW.Page → State → PW.World → Type 0)
    (H : IsHost PW DB Start Ready Shows) (M : Mbt (Model PW DB) (ActionFunc PW.World AT.Arg))
    (w : PW.World) (quiet : (t : Text) (m : Model PW DB) → M.log t m ≡ m) where
  -- With a signed in context, and a page that is closed or none.
  ends_stopped :
      (b : PW.Browser) (c : PW.Context) (old : Option PW.Page) (m : Model PW DB)
      → M.run_tests
          (action_registry PW.World AT.Arg)
          get_test_options
          (record { role = none; world = w })
        ≡ (ok tt, m)
      → m.role ≡ some (role_with PW DB b c old)
      → Ready b c m.world
      → ((test_todo PW AT DB M w).0 ≡ finished) × Start (test_todo PW AT DB M w).1.world
  unfolding test_todo cleanup_all role_close_all
  ends_stopped b c none m ran has ready =
      let (shut, (w1, w2, closes, quits, left)) = H.ends b c m.world ready in
      rw (ran, quiet, has, closes, quits) (refl, left)
  ends_stopped b c (some p) m ran has ready =
      let (shut, (w1, w2, closes, quits, left)) = H.ends b c m.world ready in
      rw (ran, quiet, has, shut p, closes, quits) (refl, left)

  -- In a browser and with a database that behave as documented, with an application that does as
  -- todo.fizz says, from a world without a browser, with a console that changes nothing and a runner
  -- whose `runTests` does any number of runs that the specification allows: the test program
  -- finishes, neither with an exit code nor with an unhandled rejection, and leaves a world without
  -- a browser.
  pub test_todo-finishes :
      {ls : List (List (Action × List AT.Arg))} {rss : List (List Result)}
      → Start w
      → M.run_tests
          (action_registry PW.World AT.Arg)
          get_test_options
          (record { role = none; world = w })
        ≡ continue (sessions PW AT DB ls (record { role = none; world = w })) (λ rss m. (ok tt, m))
      → Runs PW AT DB ls rss
      → ((test_todo PW AT DB M w).0 ≡ finished) × Start (test_todo PW AT DB M w).1.world
  unfolding test_todo cleanup_all
  test_todo-finishes {ls} {rss} start runs rs =
      let (m, all_ran, between) =
        sessions-replies PW AT DB Start Ready Shows H (record { role = none; world = w })
          (inl (refl, start)) rs in
      let ran = rw all_ran at runs in
      elim between [
        | inl (has, left) ↦ rw (ran, quiet, has) (refl, left)
        | inr (b, c, old, has, ready) ↦ ends_stopped b c old m ran has ready
      ]
