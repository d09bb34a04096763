-- ===== src/Counter/Demo/Fails.antt =====
-- The demonstration when something on PostgreSQL fails.
use fizzbee_mbt_examples.Prelude.{List, ◌∷◌, Text, codes, Outcome, ok, throw, continue, ◌≡◌, refl}
use fizzbee_mbt_examples.Counter.Pg.Database.{Postgres}
use fizzbee_mbt_examples.Counter.Demo.{
  Line, log, error, Shell, database_url, try_pg_counter, catch_pg_error, test_pg_counter,
  exited_with_1, main,
}
use fizzbee_mbt_examples.Counter.Demo.Fresh.{mem_lines, test_mem_counter-eq}

module _ (P : Postgres) (p : P.Pool) where
  -- The `catch` ends the pool and rejects, with the old error or with one of ending the pool.
  catch_pg_error-throws :
      (out : Outcome (Unit {0}) × Shell P.Db) (e : Text)
      → out.0 ≡ throw e
      → (e' : Text) × ((catch_pg_error P p out).0 ≡ throw e')
        × ((catch_pg_error P p out).1.world ≡ (P.end_pool p out.1.world).1)
  catch_pg_error-throws (ok u, s) e h = absurd (cc h)
  catch_pg_error-throws (throw e, s) e' h = go (P.end_pool p s.world)
    where
      go :
          (r : Outcome (Unit {0}) × P.Db)
          → let after =
              continue {B = Unit {0}}
                (
                  r.0,
                  record s {
                    world = r.1;
                    console = error (codes "Error testing PGCounter:") e ∷ s.console;
                  },
                )
                (λ u t. (throw e, t)) in
            (e'' : Text) × (after.0 ≡ throw e'') × (after.1.world ≡ r.1)
      go (ok u, d) = (e, refl, refl)
      go (throw e'', d) = (e'', refl, refl)

-- Where the demonstration of `PGCounter` begins.
abbrev pub begun : (P : Postgres) → P.Db → List Line → Shell P.Db
begun P db console = record {
  world = (P.new_pool (database_url P) db).1;
  console = log (codes "\n=== Testing PGCounter ===") ∷ mem_lines console;
}

module _ (P : Postgres) (db : P.Db) (console : List Line) (p : P.Pool) (e : Text)
    (made : (P.new_pool (database_url P) db).0 ≡ ok p) where
  test_pg_counter-throws :
      (try_pg_counter P p (begun P db console)).0 ≡ throw e
      → (e' : Text) × ((test_pg_counter P (record { world = db; console = mem_lines console })).0
          ≡ throw e')
        × ((test_pg_counter P (record { world = db; console = mem_lines console })).1.world
            ≡ (P.end_pool p (try_pg_counter P p (begun P db console)).1.world).1)
  unfolding test_pg_counter
  test_pg_counter-throws failed =
      let (e', thrown, world) =
        catch_pg_error-throws P p (try_pg_counter P p (begun P db console)) e failed in
      (e', rw made thrown, rw made world)

  -- When a pool can be made, but the demonstration of `PGCounter` on it throws at any point: the
  -- process exits with 1, and the last thing that is done to the database is to end the pool.
  pub main-fails :
      (try_pg_counter P p (begun P db console)).0 ≡ throw e
      → ((main P (record { world = db; console = console })).0 ≡ exited_with_1)
        × ((main P (record { world = db; console = console })).1.world
            ≡ (P.end_pool p (try_pg_counter P p (begun P db console)).1.world).1)
  unfolding main
  main-fails failed =
      let (e', thrown, world) = test_pg_counter-throws failed in
      rw (test_mem_counter-eq db console, thrown) (refl, world)
