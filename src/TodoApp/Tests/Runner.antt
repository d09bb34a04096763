-- ===== src/TodoApp/Tests/Runner.antt =====
-- The test program where the tests pass, and two texts of records.
use fizzbee_mbt_examples.Prelude.{ℕ, some, true, false, codes, ok, throw, ◌≡◌, refl}
use fizzbee_mbt_examples.Browser.{Playwright}
use fizzbee_mbt_examples.Browser.Fake.{fake, numbers}
use fizzbee_mbt_examples.Mbt.{Mbt, unhandled}
use fizzbee_mbt_examples.TodoApp.Format.Injective.{to_fizz_bee_format-injective}
use fizzbee_mbt_examples.TodoApp.Lifecycle.{Model}
use fizzbee_mbt_examples.TodoApp.Runner.{ActionFunc, test_todo}
use fizzbee_mbt_examples.TodoApp.Runner.Ends.{passed_leaks}
use fizzbee_mbt_examples.TodoApp.Tests.{opens, database}

-- Tests that pass, and leave the role with a page.
abbrev passing :
    (PW : Playwright) (b : PW.Browser) (c : PW.Context) (p : PW.Page)
    (DB : fizzbee_mbt_examples.TodoApp.Lifecycle.Sqlite PW.World)
    → Mbt (Model PW DB) (ActionFunc PW.World ℕ)
passing PW b c p DB = record {
  run_tests = λ r o s. (
    ok tt,
    record s { role = some (record { browser = some b; context = some c; page = some p }) },
  );
  log = λ t s. s;
  log_error = λ t e s. s;
}

abbrev pw : Playwright
pw = fake opens

-- A browser that cannot close a page.
abbrev stuck : Playwright
stuck = record pw { close_page = λ p n. (throw (codes "crashed"), n) }

passed_leaks_example :
    test_todo stuck numbers (database false) (passing stuck tt tt tt (database false)) 0 ≡ (
      unhandled (codes "crashed"),
      record {
        role = some (record { browser = some tt; context = some tt; page = some tt });
        world = 0;
      },
    )
passed_leaks_example =
    passed_leaks stuck numbers (database false) (passing stuck tt tt tt (database false)) 0 tt tt tt
      (record {
        role = some (record { browser = some tt; context = some tt; page = some tt });
        world = 0;
      })
      refl refl 0 (codes "crashed") refl refl

to_fizz_bee_format-injective_example :
    (◌≡◌ {A = ℕ} 1 1) × (codes "A" ≡ codes "A") × (false ≡ false) × (true ≡ true)
to_fizz_bee_format-injective_example =
    to_fizz_bee_format-injective 1 1 (codes "A") (codes "A") false false true true refl
