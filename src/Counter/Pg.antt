-- ===== src/Counter/Pg.antt =====
-- examples/fizzbee-mbt-quickstart/typescript/src/pg_counter.ts, over any database that answers
-- its statements. The child `Database` says what is assumed of the package `pg` and its server.
pub mod Database
pub mod Table
pub mod Laws
pub mod Refines
pub mod Fresh
pub mod Clients
use fizzbee_mbt_examples.Prelude.{
  List, [], ◌∷◌, ◌++◌, Text, codes, Exec, Outcome, raise, pure, ◌>>=◌, ◌>>◌,
}
use fizzbee_mbt_examples.Prelude.Int.{ℤ, pos, negsuc}
use fizzbee_mbt_examples.Counter.Defs.{Counter}
use fizzbee_mbt_examples.Counter.Pg.Database.{
  Value, int, text, Column, name, value, max, Expr, col, param, lit, add, Cond, eq, ge, le, and,
  Statement, create_table, insert_or_skip, update_value, select_value, delete, Postgres,
}

-- The statements of the class, as the server parses their text.
abbrev pub insert_statement : Statement
insert_statement = insert_or_skip (param 1) (lit (pos 0)) (param 2)

abbrev pub update_statement : Statement
update_statement = update_value (add (col value) (param 1)) (
    and (and (eq (col name) (param 2)) (ge (add (col value) (param 1)) (lit (pos 0))))
      (le (add (col value) (param 1)) (col max)))

abbrev pub select_statement : Statement
select_statement = select_value (eq (col name) (param 1))

abbrev pub delete_statement : Statement
delete_statement = delete (eq (col name) (param 1))

module _ (P : Postgres) where
  open P use {Db, Pool, query, end_pool}

  pub record PgCounter : Type 0 where
    pub pool : Pool
    pub name : Text
    pub max : ℤ

  -- `PGCounter.create`
  unfoldable pub create : Pool → Text → ℤ → Exec Db PgCounter
  create p n m = do
    query p insert_statement (text n ∷ int m ∷ [])
    pure (record { pool = p; name = n; max = m })

  unfoldable pub update : PgCounter → ℤ → Exec Db (Unit {0})
  update c delta = do query c.pool update_statement (int delta ∷ text c.name ∷ []); pure tt

  unfoldable pub inc : PgCounter → Exec Db (Unit {0})
  inc c = update c (pos 1)

  unfoldable pub dec : PgCounter → Exec Db (Unit {0})
  dec c = update c (negsuc 0)

  abbrev first_row : Text → List ℤ → Exec Db ℤ
  first_row n [] = raise (codes "Counter " ++ n ++ codes " not found")
  first_row n (v ∷ rows) = pure v

  unfoldable pub get : PgCounter → Exec Db ℤ
  get c = do rows ← query c.pool select_statement (text c.name ∷ []); first_row c.name rows

  unfoldable pub close : PgCounter → Exec Db (Unit {0})
  close c = end_pool c.pool

  unfoldable pub delete_counter : PgCounter → Exec Db (Unit {0})
  delete_counter c = do query c.pool delete_statement (text c.name ∷ []); pure tt

  -- `PGCounter implements Counter`
  abbrev pub pg_counter : PgCounter → Counter Db
  pg_counter c = record { inc = inc c; dec = dec c; get = get c }
