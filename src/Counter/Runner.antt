-- ===== src/Counter/Runner.antt =====
-- examples/fizzbee-mbt-quickstart/typescript/fizztests/counter_test.ts: the test program.
use fizzbee_mbt_examples.Prelude.{List, Text, codes, Outcome, ok, throw}
use fizzbee_mbt_examples.Mbt.{Mbt, Exit, finished, exited_with_1}
use fizzbee_mbt_examples.Counter.Mem.{MemCounter}
use fizzbee_mbt_examples.Counter.Pg.Database.{Postgres}
use fizzbee_mbt_examples.Counter.Adapter.{ActionFunc, action_registry}
use fizzbee_mbt_examples.Counter.Adapter.Model
use fizzbee_mbt_examples.Counter.Adapter.Model.{World, new_counter_model}

module _ (Arg : Type 0) (P : Postgres) (M : Mbt (World P) (ActionFunc Arg (World P))) where
  -- What follows `await runTests(…)`.
  after_tests : Outcome (Unit {0}) × World P → Exit × World P
  after_tests (ok u, w) = (finished, w)
  after_tests (throw e, w) = (exited_with_1, M.log_error (codes "Test failed:") e w)

  -- `testCounter`, with the arguments of the process, the objects in memory, and the database.
  unfoldable pub test_counter : List Text → List MemCounter → P.Db → Exit × World P
  unfolding after_tests
  test_counter argv heap db = after_tests (
      M.run_tests (action_registry Arg (World P)) Model.get_test_options
        (record { self = new_counter_model P argv; heap = heap; db = db }))
