-- ===== src/Counter/Tests/Demo.antt =====
-- Runs of the demonstration, on a database with an old counter and on one that fails, and the
-- replies of both counters.
use fizzbee_mbt_examples.Prelude.{[], ◌∷◌, none, codes, ok, throw, ◌≡◌, refl, arith}
use fizzbee_mbt_examples.Prelude.Int.{pos}
use fizzbee_mbt_examples.Counter.Mem.{mem_counter}
use fizzbee_mbt_examples.Counter.Mem
use fizzbee_mbt_examples.Counter.Mem.Refines.{Matches, mem_counter-Simulates, create-Matches}
use fizzbee_mbt_examples.Counter.Pg.{PgCounter, pg_counter, create}
use fizzbee_mbt_examples.Counter.Pg.Database.{Postgres}
use fizzbee_mbt_examples.Counter.Demo.{
  log, Shell, exercise, test_pg_counter, try_pg_counter, main, finished, exited_with_1,
}
use fizzbee_mbt_examples.Counter.Demo.Shown.{counted, exercise-shown}
use fizzbee_mbt_examples.Counter.Demo.Fresh.{
  pg_lines, mem_lines, test_pg_counter-shown, main-finishes,
}
use fizzbee_mbt_examples.Counter.Demo.Fails.{main-fails, begun}
use fizzbee_mbt_examples.Counter.Adapter.Refines.{perform_all}
use fizzbee_mbt_examples.Counter.Adapter.Equal.{pg-mem}
use fizzbee_mbt_examples.Counter.Adapter.Model.{test_counter}
use fizzbee_mbt_examples.Counter.Tests.Server.{Store, new_pool, server, view, server-IsPostgres}
use fizzbee_mbt_examples.Counter.Tests.{sample, used, used-IsSafe}

exercise-shown_example :
    ((exercise mem_counter (record { world = Mem.create (pos 5); console = [] })).0 ≡ ok tt)
    × ((exercise mem_counter (record { world = Mem.create (pos 5); console = [] })).1.console
        ≡ counted [])
    × Matches
        (pos 5)
        (pos 5)
        (exercise mem_counter (record { world = Mem.create (pos 5); console = [] })).1.world
exercise-shown_example =
    exercise-shown mem_counter (Matches (pos 5)) (Mem.create (pos 5)) []
      (mem_counter-Simulates (pos 5)) (create-Matches (pos 5) (omega arith))

abbrev shell : Shell Store
shell = record { world = used; console = [] }

test_pg_counter-shown_example :
    ((test_pg_counter server shell).0 ≡ ok tt)
    × ((test_pg_counter server shell).1.console
        ≡ pg_lines (log (codes "\n=== Testing PGCounter ===") ∷ []))
    × (view.row (test_pg_counter server shell).1.world test_counter ≡ none)
test_pg_counter-shown_example =
    test_pg_counter-shown server view server-IsPostgres used [] used-IsSafe

main-finishes_example :
    ((main server shell).0 ≡ finished)
    × ((main server shell).1.console
        ≡ log (codes "\n✓ All tests completed successfully!")
          ∷ pg_lines (log (codes "\n=== Testing PGCounter ===") ∷ mem_lines []))
main-finishes_example = main-finishes server view server-IsPostgres used [] used-IsSafe

-- A server whose statements fail.
abbrev failing : Postgres
failing = record server { query = λ p q args s. (throw (codes "down"), s) }

main-fails_example :
    ((main failing shell).0 ≡ exited_with_1)
    × ((main failing shell).1.world
        ≡ (failing.end_pool 1 (try_pg_counter failing 1 (begun failing used [])).1.world).1)
unfolding try_pg_counter new_pool
main-fails_example = main-fails failing used [] 1 (codes "down") refl refl

pg-mem_example :
    (c : PgCounter server) × ((create server 0 (codes "other") (pos 3) used).0 ≡ ok c)
    × (c ≡ record { pool = 0; name = codes "other"; max = pos 3 })
    × ((perform_all
          (Unit {0})
          (pg_counter server c)
          sample
          (create server 0 (codes "other") (pos 3) used).1).0
        ≡ (perform_all (Unit {0}) mem_counter sample (Mem.create (pos 3))).0)
pg-mem_example =
    pg-mem (Unit {0}) server view server-IsPostgres 0 (codes "other") (pos 3) used (omega arith)
      (omega arith) (refl, refl) used-IsSafe sample refl
