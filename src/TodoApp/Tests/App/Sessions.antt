-- ===== src/TodoApp/Tests/App/Sessions.antt =====
-- Two runs on the application, one after the other.
use fizzbee_mbt_examples.Prelude.{
  continue, true, false, not, ap, [], ◌∷◌, none, ok, ◌≡◌, refl, map, inl,
}
use fizzbee_mbt_examples.TodoApp.Spec.{init}
use fizzbee_mbt_examples.TodoApp.Spec.Invariant.{Reachable}
use fizzbee_mbt_examples.TodoApp.Actions.Reading.Observed.{observed_result}
use fizzbee_mbt_examples.TodoApp.Lifecycle.{Sqlite, Model}
use fizzbee_mbt_examples.TodoApp.Conforms.Sessions.{
  sessions, ClearsTodos, SignsIn, IsHost, IsBetween, Runs,
}
use fizzbee_mbt_examples.TodoApp.Conforms.Sessions.Replies.{sessions-replies}
use fizzbee_mbt_examples.Mbt.{Mbt, finished}
use fizzbee_mbt_examples.TodoApp.Runner.{ActionFunc, test_todo}
use fizzbee_mbt_examples.TodoApp.Conforms.Sessions.Suite.{test_todo-finishes}
use fizzbee_mbt_examples.TodoApp.Tests.App.{App, Value, app_page, values}
use fizzbee_mbt_examples.TodoApp.Tests.App.Elements.{Shows}
use fizzbee_mbt_examples.TodoApp.Tests.App.Conforms.{
  conforms, allowed, results, allowed-Run, opened,
}

-- The statements that are run leave no todo.
abbrev app_db : Sqlite App
app_db = record {
  Db = Unit {0};
  connect = λ t w. (ok tt, w);
  pragma = λ d t w. (ok tt, w);
  run = λ d t w. (ok tt, record w { state = init });
  close = λ d w. (ok tt, w);
}

abbrev IsStopped : App → Type 0
IsStopped w = w.running ≡ false

-- The browser may run, but its page is closed.
abbrev IsReady : App → Type 0
IsReady w = (w.state ≡ init) × (w.page_open ≡ false)

clears :
    (w : App) (After : App → Type 0)
    → After (record w { state = init })
    → ClearsTodos app_page app_db w After
clears w After h = record {
  db = tt;
  connected = w;
  patient = w;
  deleted = record w { state = init };
  reset = record w { state = init };
  closed = record w { state = init };
  connects = refl;
  waits = refl;
  deletes = refl;
  resets = refl;
  closes = refl;
  after = h;
}

shows_init : (w : App) → w.state ≡ init → w.page_open ≡ true → Shows init w
shows_init w h k = record { state = h; reached = Reachable.start; shown = k }

signs_in : (w : App) → Shows init w → SignsIn app_page app_db tt w (Shows init)
signs_in w h = record {
  arrived = w;
  focused = w;
  named = w;
  proved = w;
  sent = w;
  signed_in = w;
  arrives = refl;
  focuses = refl;
  names = refl;
  proves = refl;
  sends = refl;
  waits = refl;
  after = h;
}

host : IsHost app_page app_db IsStopped (λ b c. IsReady) (λ b c p. Shows)
host = record {
  starts = λ w h. clears w _ (record {
    browser = tt;
    context = tt;
    page = tt;
    launched = record w { state = init; running = true };
    prepared = record w { state = init; running = true };
    opened = record w { state = init; running = true; page_open = true };
    launches = refl;
    prepares = refl;
    opens = refl;
    after =
        signs_in (record w { state = init; running = true; page_open = true })
          (shows_init (record w { state = init; running = true; page_open = true }) refl refl);
  });
  reopens = λ b c w (h, k). (
    tt,
    record w { page_open = true },
    record w { page_open = true },
    refl,
    refl,
    shows_init (record w { page_open = true }) h refl,
  );
  conforms = λ b c p. conforms;
  closes = λ b c p s w h. (
    record w { page_open = false },
    ap not h.shown,
    refl,
    clears (record w { page_open = false }) IsReady (refl, refl),
  );
  ends = λ b c w (h, k). (λ p. ap not k, (w, record w { running = false }, refl, refl, refl));
}

abbrev stopped : App
stopped = record opened { page_open = false; running = false }

abbrev new_model : Model app_page app_db
new_model = record { role = none; world = stopped }

sessions-replies_example :
    (m' : Model app_page app_db) × (sessions app_page values app_db
        (allowed ∷ allowed ∷ [])
        new_model
      ≡ (ok (map (map observed_result) (results ∷ results ∷ [])), m'))
    × IsBetween app_page app_db IsStopped (λ b c. IsReady) m'
sessions-replies_example =
    sessions-replies app_page values app_db IsStopped (λ b c. IsReady) (λ b c p. Shows) host
      new_model (inl (refl, refl))
      (Runs.one_more allowed-Run (Runs.one_more allowed-Run Runs.none_left))

-- A runner that does two runs.
abbrev two_runs : Mbt (Model app_page app_db) (ActionFunc App Value)
two_runs = record {
  run_tests = λ r o m.
      continue (sessions app_page values app_db (allowed ∷ allowed ∷ []) m) (λ rss m'. (ok tt, m'));
  log = λ t m. m;
  log_error = λ t e m. m;
}

test_todo-finishes_example :
    ((test_todo app_page values app_db two_runs stopped).0 ≡ finished)
    × IsStopped (test_todo app_page values app_db two_runs stopped).1.world
test_todo-finishes_example =
    test_todo-finishes app_page values app_db IsStopped (λ b c. IsReady) (λ b c p. Shows) host
      two_runs stopped (λ t m. refl) refl refl
      (Runs.one_more allowed-Run (Runs.one_more allowed-Run Runs.none_left))
