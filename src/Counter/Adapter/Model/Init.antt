-- ===== src/Counter/Adapter/Model/Init.antt =====
-- What `init` of the model adapter sets up with PostgreSQL.
use fizzbee_mbt_examples.Prelude.{
  List, [], ◌∷◌, none, some, ◌≡◌, sym, ◌∙◌, arith, ok, true, Exec, continue, Text,
}
use fizzbee_mbt_examples.Prelude.Int.{pos}
use fizzbee_mbt_examples.Counter.Mem.{MemCounter}
use fizzbee_mbt_examples.Counter.Pg.{PgCounter, delete_statement, create}
use fizzbee_mbt_examples.Counter.Pg.Database.{Postgres, create_table, text}
use fizzbee_mbt_examples.Counter.Pg.Table.{View, IsReady, Ran, IsPostgres}
use fizzbee_mbt_examples.Counter.Pg.Laws.{IsSafe, query_delete-Ran}
use fizzbee_mbt_examples.Counter.Pg.Refines.{Stores}
use fizzbee_mbt_examples.Counter.Pg.Fresh.{drop-gone, create-Stores, created}
use fizzbee_mbt_examples.Counter.Adapter.Model.{
  CounterModelAdapter, World, pg, on_db, init_pg, database_url, test_counter, set_pool,
}

module _ (P : Postgres) where
  -- A successful call on the database, in a `do` block.
  on_db-continue :
      {A B : Type 0} (m : Exec P.Db A) (w : World P) (k : A → Exec (World P) B) (a : A)
      → (m w.db).0 ≡ ok a
      → continue (on_db P m w) k ≡ k a (record w { db = (m w.db).1 })
  on_db-continue m w k a h = rw h

  module _ (V : View P) (L : IsPostgres P V) (db : P.Db) (safe : IsSafe V db) where
    abbrev pub connected : P.Db
    connected = (P.new_pool database_url db).1

    module _ (p : P.Pool) (open_now : V.is_open connected p ≡ true)
        (rows : (k : Text) → V.row connected k ≡ V.row db k) where
      abbrev pub handle : PgCounter P
      handle = record { pool = p; name = test_counter; max = pos 3 }

      abbrev pub with_table : P.Db
      with_table = (P.query p create_table [] connected).1

      abbrev pub without_counter : P.Db
      without_counter = (P.query p delete_statement (text test_counter ∷ []) with_table).1

      abbrev pub fresh : P.Db
      fresh = (create P p test_counter (pos 3) without_counter).1

      tabled : Ran V connected (P.query p create_table [] connected) [] (V.row connected)
      tabled = L.run_create p connected open_now

      with_table-IsReady : IsReady V with_table p
      with_table-IsReady = (tabled.pools p ∙ open_now, tabled.table)

      with_table-IsSafe : IsSafe V with_table
      with_table-IsSafe k r e = safe k r (sym (rows k) ∙ sym (tabled.stored k) ∙ e)

      emptied :
          IsReady V without_counter p
          × IsSafe V without_counter
          × (V.row without_counter test_counter ≡ none)
      emptied =
          drop-gone P V L p test_counter with_table _ with_table-IsReady with_table-IsSafe
            (query_delete-Ran P V L p test_counter with_table with_table-IsReady)

      -- The counter that `init` makes stands at 0 with maximum 3, whatever the table held.
      pub fresh-Stores : Stores P V L handle (pos 3) (pos 0) fresh
      fresh-Stores =
          create-Stores P V L p test_counter (pos 3) without_counter (omega arith) (omega arith)
            emptied.0 emptied.1 emptied.2

      deleted : (P.query p delete_statement (text test_counter ∷ []) with_table).0 ≡ ok []
      deleted = (query_delete-Ran P V L p test_counter with_table with_table-IsReady).answered

      made_counter : (create P p test_counter (pos 3) without_counter).0 ≡ ok handle
      made_counter =
          (created P V L p test_counter (pos 3) without_counter (omega arith) (omega arith)
            emptied.0 emptied.1).answered

      pub init_pg-eq :
          (self : CounterModelAdapter P) (heap : List MemCounter)
          → (P.new_pool database_url db).0 ≡ ok p
          → init_pg P (record { self = self; heap = heap; db = db }) ≡ (
            ok (pg handle),
            record { self = record self { pool = some p }; heap = heap; db = fresh },
          )
      unfolding init_pg set_pool
      init_pg-eq self heap made = rw (made, tabled.answered, deleted, made_counter)
