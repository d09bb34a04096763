-- ===== src/Counter/Demo/Fresh.antt =====
-- The demonstration on PostgreSQL, whatever the table holds.
use fizzbee_mbt_examples.Prelude.{
  List, [], ◌∷◌, none, true, codes, text_eq, Outcome, ok, throw, ◌≡◌, refl, sym, ◌∙◌, arith,
}
use fizzbee_mbt_examples.Prelude.Int.{pos}
use fizzbee_mbt_examples.Counter.Mem
use fizzbee_mbt_examples.Counter.Pg.{PgCounter, pg_counter, create, delete_counter, close}
use fizzbee_mbt_examples.Counter.Pg.Database.{Postgres, create_table}
use fizzbee_mbt_examples.Counter.Pg.Table.{drop_rows, View, IsReady, Ran, IsPostgres}
use fizzbee_mbt_examples.Counter.Pg.Laws.{IsSafe, delete_counter-Ran}
use fizzbee_mbt_examples.Counter.Pg.Refines.{Stores, pg_counter-Simulates}
use fizzbee_mbt_examples.Counter.Pg.Fresh.{
  created, create-IsSafe, create-IsReady, create-Stores, drop-gone,
}
use fizzbee_mbt_examples.Counter.Demo.{
  Line, log, Shell, exercise, test_counter, database_url, try_pg_counter, test_pg_counter,
  catch_pg_error, test_mem_counter, finished, main,
}
use fizzbee_mbt_examples.Counter.Demo.Shown.{counted, exercise-shown}

-- The lines of the demonstration on PostgreSQL, the newest first.
abbrev pub pg_lines : List Line → List Line
pg_lines console =
    log (codes "✓ PGCounter test completed")
    ∷ log (codes "✓ Counter deleted")
    ∷ counted (
        log (codes "✓ Counter created") ∷ log (codes "✓ Table created or already exists") ∷ console)

module _ (P : Postgres) (V : View P) (L : IsPostgres P V) (p : P.Pool) where
  abbrev handle : PgCounter P
  handle = record { pool = p; name = test_counter P; max = pos 5 }

  deleted :
      (db : P.Db)
      → IsReady V db p
      → Ran V db
          (delete_counter P handle db)
          tt
          (drop_rows (λ r. text_eq r.name (test_counter P)) (V.row db))
  deleted db ready = delete_counter-Ran P V L handle db ready

  gone :
      (db : P.Db)
      → IsReady V db p
      → IsSafe V db
      → IsReady V (delete_counter P handle db).1 p
        × IsSafe V (delete_counter P handle db).1
        × (V.row (delete_counter P handle db).1 (test_counter P) ≡ none)
  gone db ready safe = drop-gone P V L p (test_counter P) db _ ready safe (deleted db ready)

  module _ (db : P.Db) (open_now : V.is_open db p ≡ true) (safe : IsSafe V db)
      (console : List Line) where
    abbrev tabled : Ran V db (P.query p create_table [] db) [] (V.row db)
    tabled = L.run_create p db open_now

    abbrev first : P.Db
    first = (P.query p create_table [] db).1

    first-IsReady : IsReady V first p
    first-IsReady = (tabled.pools p ∙ open_now, tabled.table)

    first-IsSafe : IsSafe V first
    first-IsSafe k r e = safe k r (sym (tabled.stored k) ∙ e)

    abbrev second : P.Db
    second = (create P p (test_counter P) (pos 5) first).1

    second-IsReady : IsReady V second p
    second-IsReady =
        create-IsReady P V L p (test_counter P) (pos 5) first (omega arith) (omega arith)
          first-IsReady first-IsSafe

    second-IsSafe : IsSafe V second
    second-IsSafe =
        create-IsSafe P V L p (test_counter P) (pos 5) first (omega arith) (omega arith)
          first-IsReady first-IsSafe

    abbrev third : P.Db
    third = (delete_counter P handle second).1

    third-gone : IsReady V third p × IsSafe V third × (V.row third (test_counter P) ≡ none)
    third-gone = gone second second-IsReady second-IsSafe

    abbrev fresh : P.Db
    fresh = (create P p (test_counter P) (pos 5) third).1

    fresh-Stores : Stores P V L handle (pos 5) (pos 0) fresh
    fresh-Stores =
        create-Stores P V L p (test_counter P) (pos 5) third (omega arith) (omega arith)
          third-gone.0 third-gone.1 third-gone.2

    try_pg_counter-shown :
        ((try_pg_counter P p (record { world = db; console = console })).0 ≡ ok tt)
        × ((try_pg_counter P p (record { world = db; console = console })).1.console
            ≡ pg_lines console)
        × (V.row
              (try_pg_counter P p (record { world = db; console = console })).1.world
              (test_counter P)
            ≡ none)
    unfolding try_pg_counter close
    try_pg_counter-shown =
        let (done, lines, last) =
          exercise-shown (pg_counter P handle) (Stores P V L handle (pos 5)) fresh
            (log (codes "✓ Counter created")
              ∷ log (codes "✓ Table created or already exists")
              ∷ console)
            (pg_counter-Simulates P V L handle (pos 5)) fresh-Stores in
        let after = gone _ last.ready last.safe in
        let (ended, closed, rows) = L.run_end_pool p _ after.0.0 in
        rw
          (
            tabled.answered,
            (created P V L p (test_counter P) (pos 5) first (omega arith) (omega arith)
                first-IsReady first-IsSafe).answered,
            (deleted second second-IsReady).answered,
            (created P V L p (test_counter P) (pos 5) third (omega arith) (omega arith) third-gone.0
                third-gone.1).answered,
            done,
            (deleted _ last.ready).answered,
            ended,
          )
          (refl, rw lines refl, rows (test_counter P) ∙ after.2)

-- A body that resolves is not caught.
catch_pg_error-ok :
    (P : Postgres) (p : P.Pool) (out : Outcome (Unit {0}) × Shell P.Db)
    → out.0 ≡ ok tt
    → catch_pg_error P p out ≡ out
catch_pg_error-ok P p (ok u, s) h = refl
catch_pg_error-ok P p (throw e, s) h = absurd (cc h)

-- The demonstration on PostgreSQL, on a server as in `IsPostgres` with every row in range: whatever
-- a row of the test counter held, it resolves, prints that the counter starts at 0 and goes to 1, 3,
-- 2, 5 and 5, with the lines around, and no error, and leaves no row of the test counter.
pub test_pg_counter-shown :
    (P : Postgres) (V : View P) (L : IsPostgres P V) (db : P.Db) (console : List Line)
    → IsSafe V db
    → ((test_pg_counter P (record { world = db; console = console })).0 ≡ ok tt)
      × ((test_pg_counter P (record { world = db; console = console })).1.console
          ≡ pg_lines (log (codes "\n=== Testing PGCounter ===") ∷ console))
      × (V.row
            (test_pg_counter P (record { world = db; console = console })).1.world
            (test_counter P)
          ≡ none)
unfolding test_pg_counter
test_pg_counter-shown P V L db console safe =
    let (p, made, open_now, tab, rows) = L.run_new_pool (database_url P) db in
    let (done, lines, none_left) =
      try_pg_counter-shown P V L p (P.new_pool (database_url P) db).1 open_now
        (λ k r e. safe k r (sym (rows k) ∙ e))
        (log (codes "\n=== Testing PGCounter ===") ∷ console) in
    let ended = try_pg_counter P p (record {
      world = (P.new_pool (database_url P) db).1;
      console = log (codes "\n=== Testing PGCounter ===") ∷ console;
    }) in
    rw (made, catch_pg_error-ok P p ended done) (done, lines, none_left)

-- The lines of the demonstration of `MemCounter`, the newest first.
abbrev pub mem_lines : List Line → List Line
mem_lines console =
    log (codes "✓ MemCounter test completed")
    ∷ counted (log (codes "\n=== Testing MemCounter ===") ∷ console)

pub test_mem_counter-eq :
    {S : Type 0} (w : S) (console : List Line)
    → test_mem_counter (record { world = w; console = console })
      ≡ (ok tt, record { world = w; console = mem_lines console })
unfolding test_mem_counter exercise Mem.inc Mem.dec Mem.get
test_mem_counter-eq w console = refl

-- The whole program, on a server as in `IsPostgres` with every row in range: the process is not left by `process.exit(1)`, and the console
-- has the lines of both demonstrations and of their success.
pub main-finishes :
    (P : Postgres) (V : View P) (L : IsPostgres P V) (db : P.Db) (console : List Line)
    → IsSafe V db
    → ((main P (record { world = db; console = console })).0 ≡ finished)
      × ((main P (record { world = db; console = console })).1.console
          ≡ log (codes "\n✓ All tests completed successfully!")
            ∷ pg_lines (log (codes "\n=== Testing PGCounter ===") ∷ mem_lines console))
unfolding main
main-finishes P V L db console safe =
    let (done, lines, none_left) = test_pg_counter-shown P V L db (mem_lines console) safe in
    rw (test_mem_counter-eq db console, done) (refl, rw lines refl)
