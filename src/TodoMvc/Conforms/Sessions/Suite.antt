-- ===== src/TodoMvc/Conforms/Sessions/Suite.antt =====
-- The whole test program, with a runner that does runs which the specification allows.
use fizzbee_mbt_examples.Prelude.{List, ok, continue, ◌≡◌, refl, inl, inr}
use fizzbee_mbt_examples.Browser.{Playwright, ArgType}
use fizzbee_mbt_examples.Mbt.{Mbt, finished}
use fizzbee_mbt_examples.TodoMvc.Spec
use fizzbee_mbt_examples.TodoMvc.Spec.{State, Action}
use fizzbee_mbt_examples.TodoMvc.Lifecycle.{
  PlaywrightEnv, Model, new_adapter, get_test_options, cleanup_all, close_all,
}
use fizzbee_mbt_examples.TodoMvc.Runner.{ActionFunc, action_registry, test_todomvc}
use fizzbee_mbt_examples.TodoMvc.Conforms.Sessions.{sessions, IsHost, Runs, sessions-observed}

module _ (AT : ArgType) (PW : Playwright) (Start : PW.World → Type 0)
    (Ready : PlaywrightEnv PW → PW.World → Type 0)
    (Shows : PlaywrightEnv PW → PW.Page → State → PW.World → Type 0)
    (H : IsHost PW Start Ready Shows) (M : Mbt (Model PW) (ActionFunc PW.World AT.Arg))
    (w : PW.World) where
  -- In a browser that behaves as documented, with an application that does as todomvc.fizz says and
  -- keeps its todos in the local storage, from a world without a browser, with a runner whose
  -- `runTests` does any number of runs that the specification allows, whose titles have no white
  -- space at their ends, on the roles that `getRoles` lists after each `init`: the test program finishes, neither with an exit code nor with an unhandled
  -- rejection, and leaves a world without a browser.
  pub test_todomvc-finishes :
      {ls : List (List (Action × List AT.Arg))} {vss : List (List Spec.View)}
      → Start w
      → M.run_tests
          (action_registry PW.World AT.Arg)
          get_test_options
          (record { self = new_adapter PW; world = w })
        ≡ continue
            (sessions AT PW ls (record { self = new_adapter PW; world = w }))
            (λ vss m. (ok tt, m))
      → Runs AT ls vss
      → ((test_todomvc PW AT M w).0 ≡ finished) × Start (test_todomvc PW AT M w).1.world
  unfolding test_todomvc cleanup_all close_all
  test_todomvc-finishes {ls} {vss} start runs rs =
      let (m, all_ran, between) =
        sessions-observed AT PW Start Ready Shows H (record { self = new_adapter PW; world = w })
          (inl (refl, start)) rs in
      let ran = rw all_ran at runs in
      elim between [
        | inl (has, left) ↦ rw (ran, has) (refl, left)
        | inr (e, has, ready) ↦
            let (w1, w2, closes, quits, left) = H.ends e m.world ready in
            rw (ran, has, closes, quits) (refl, left)
      ]
