-- ===== src/TodoMvc/Tests/App/Sessions.antt =====
-- Two runs on the application, one after the other.
use fizzbee_mbt_examples.Prelude.{continue, inl, [], ◌∷◌, ok, ◌≡◌, refl, map}
use fizzbee_mbt_examples.TodoMvc.Spec.{init}
use fizzbee_mbt_examples.TodoMvc.Spec.Invariant.{Reach}
use fizzbee_mbt_examples.TodoMvc.View.Renders.{observed}
use fizzbee_mbt_examples.TodoMvc.Lifecycle.{Model, new_adapter}
use fizzbee_mbt_examples.TodoMvc.Conforms.Sessions.{
  sessions, IsHost, IsBetween, Runs, sessions-observed,
}
use fizzbee_mbt_examples.Mbt.{Mbt, finished}
use fizzbee_mbt_examples.TodoMvc.Runner.{ActionFunc, test_todomvc}
use fizzbee_mbt_examples.TodoMvc.Conforms.Sessions.Suite.{test_todomvc-finishes}
use fizzbee_mbt_examples.TodoMvc.Tests.App.{App, Value, app_page, values}
use fizzbee_mbt_examples.TodoMvc.Tests.App.Elements.{Shows}
use fizzbee_mbt_examples.TodoMvc.Tests.App.Conforms.{conforms, allowed, views, milk-Run}

abbrev IsReady : App → Type 0
IsReady w = w.state ≡ init

host : IsHost app_page IsReady (λ e. IsReady) (λ e p. Shows)
host = record {
  launches = λ w h. (tt, tt, w, w, refl, refl, h);
  opens = λ e w h. (tt, w, w, refl, refl, record { state = h; reached = Reach.start; titled = tt });
  conforms = λ e p. conforms;
  closes =
      λ e p s w h. (record w { state = init }, record w { state = init }, refl, refl, refl, refl);
  ends = λ e w h. (w, w, refl, refl, h);
}

abbrev new_model : Model app_page
new_model = record {
  self = new_adapter app_page;
  world = record { state = init; typed = []; editing = 0 };
}

sessions-observed_example :
    (m' : Model app_page) × (sessions values app_page (allowed ∷ allowed ∷ []) new_model
      ≡ (ok (map (map observed) (views ∷ views ∷ [])), m'))
    × IsBetween app_page IsReady (λ e. IsReady) m'
sessions-observed_example =
    sessions-observed values app_page IsReady (λ e. IsReady) (λ e p. Shows) host new_model
      (inl (refl, refl)) (Runs.one_more milk-Run (Runs.one_more milk-Run Runs.none_left))

-- A runner that does two runs.
abbrev two_runs : Mbt (Model app_page) (ActionFunc App Value)
two_runs = record {
  run_tests = λ r o m.
      continue (sessions values app_page (allowed ∷ allowed ∷ []) m) (λ vss m'. (ok tt, m'));
  log = λ t m. m;
  log_error = λ t e m. m;
}

test_todomvc-finishes_example :
    ((test_todomvc app_page values two_runs new_model.world).0 ≡ finished)
    × IsReady (test_todomvc app_page values two_runs new_model.world).1.world
test_todomvc-finishes_example =
    test_todomvc-finishes values app_page IsReady (λ e. IsReady) (λ e p. Shows) host two_runs
      new_model.world refl refl (Runs.one_more milk-Run (Runs.one_more milk-Run Runs.none_left))
