-- ===== src/Counter/Adapter/Model/Cleanup.antt =====
-- What `cleanup` of the model adapter leaves.
use fizzbee_mbt_examples.Prelude.{
  [], ◌∷◌, none, some, false, Text, ok, ◌≡◌, refl, sym, text_eq, ◌∙◌,
}
use fizzbee_mbt_examples.Counter.Pg.{delete_statement}
use fizzbee_mbt_examples.Counter.Pg.Database.{Postgres, text}
use fizzbee_mbt_examples.Counter.Pg.Table.{drop_rows, View, IsReady, Ran, IsPostgres}
use fizzbee_mbt_examples.Counter.Pg.Laws.{IsSafe, query_delete-Ran}
use fizzbee_mbt_examples.Counter.Pg.Fresh.{drop-gone}
use fizzbee_mbt_examples.Counter.Adapter.Model.{World, cleanup, test_counter}

module _ (P : Postgres) (V : View P) (L : IsPostgres P V) (w : World P) (p : P.Pool)
    (flag : w.self.use_mem_counter ≡ false) (pool : w.self.pool ≡ some p) (ready : IsReady V w.db p)
    (safe : IsSafe V w.db) where
  abbrev without_counter : P.Db
  without_counter = (P.query p delete_statement (text test_counter ∷ []) w.db).1

  deleted :
      Ran V w.db
        (P.query p delete_statement (text test_counter ∷ []) w.db)
        []
        (drop_rows (λ r. text_eq r.name test_counter) (V.row w.db))
  deleted = query_delete-Ran P V L p test_counter w.db ready

  gone :
      IsReady V without_counter p
      × IsSafe V without_counter
      × (V.row without_counter test_counter ≡ none)
  gone = drop-gone P V L p test_counter w.db _ ready safe deleted

  cleanup-eq :
      cleanup P w
      ≡ ((P.end_pool p without_counter).0, record w { db = (P.end_pool p without_counter).1 })
  unfolding cleanup
  cleanup-eq = rw (flag, pool, deleted.answered)

  -- `cleanup` of an adapter for PostgreSQL, with an open pool, the table there and every row in
  -- range: it resolves, the row of the test counter is removed and no other, the pool
  -- is closed, and the adapter and the objects in memory are as they were.
  pub cleanup-closes :
      ((cleanup P w).0 ≡ ok tt)
      × (V.row (cleanup P w).1.db test_counter ≡ none)
      × ((k : Text)
          → V.row (cleanup P w).1.db k
            ≡ drop_rows (λ r. text_eq r.name test_counter) (V.row w.db) k)
      × (V.is_open (cleanup P w).1.db p ≡ false)
      × ((cleanup P w).1.self ≡ w.self)
      × ((cleanup P w).1.heap ≡ w.heap)
  cleanup-closes =
      let (ended, closed, rows) = L.run_end_pool p without_counter gone.0.0 in
      rw cleanup-eq
        (ended, rows test_counter ∙ gone.2, λ k. rows k ∙ deleted.stored k, closed, refl, refl)

  -- The rows that are left are in range.
  pub cleanup-IsSafe : IsSafe V (cleanup P w).1.db
  cleanup-IsSafe =
      let (ended, closed, rows) = L.run_end_pool p without_counter gone.0.0 in
      rw cleanup-eq (λ k r e. gone.1 k r (sym (rows k) ∙ e))
