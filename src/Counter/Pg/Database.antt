-- ===== src/Counter/Pg/Database.antt =====
-- What the program uses of the package `pg` and of a PostgreSQL server: a pool runs statements on
-- the table `counters`. The statements are data, since the program holds them as texts; what they
-- do is assumed, clause by clause, in `IsPostgres`.
use fizzbee_mbt_examples.Prelude.{ℕ, ◌^◌, ◌-◌, List, Text, Exec}
use fizzbee_mbt_examples.Prelude.Int.{ℤ, pos, negsuc, ◌≤ℤ◌}

-- A value that is passed for `$1`, `$2`.
pub data Value : Type 0 where
  int : ℤ → Value
  text : Text → Value

-- The columns `name TEXT PRIMARY KEY`, `value INTEGER NOT NULL` and `max INTEGER NOT NULL`.
pub data Column : Type 0 where
  name value max : Column

pub data Expr : Type 0 where
  col : Column → Expr
  param : ℕ → Expr
  lit : ℤ → Expr
  add : Expr → Expr → Expr

pub data Cond : Type 0 where
  eq ge le : Expr → Expr → Cond
  and : Cond → Cond → Cond

pub data Statement : Type 0 where
  create_table : Statement
  insert_or_skip : Expr → Expr → Expr → Statement
  update_value : Expr → Cond → Statement
  select_value : Cond → Statement
  delete : Cond → Statement

-- A row of the table.
pub record Row : Type 0 where
  pub name : Text
  pub value : ℤ
  pub max : ℤ

-- An INTEGER has 32 bits.
abbrev pub IsInt4 : ℤ → Type 0
IsInt4 v = (negsuc (2 ^ 31 - 1) ≤ℤ v) × (v ≤ℤ pos (2 ^ 31 - 1))

-- `query` returns the column `value` of the rows of a SELECT, and no row else.
pub record Postgres : Type 1 where
  pub Db : Type 0
  pub Pool : Type 0
  pub new_pool : Text → Exec Db Pool
  pub query : Pool → Statement → List Value → Exec Db (List ℤ)
  pub end_pool : Pool → Exec Db (Unit {0})
