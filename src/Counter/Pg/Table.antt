-- ===== src/Counter/Pg/Table.antt =====
-- The table `counters` as a function of its primary key, and what a server is assumed to do to it.
use fizzbee_mbt_examples.Prelude.{
  ℕ, suc, List, [], ◌∷◌, Option, none, some, Bool, true, false, ◌&&◌, ◌≡◌, ◌⊎◌, Text, text_eq,
  Outcome, ok, throw, get_elem?, if◌then◌else◌,
}
use fizzbee_mbt_examples.Prelude.Int.{ℤ, ◌+ℤ◌, leb_ℤ}
use fizzbee_mbt_examples.Counter.Pg.Database.{
  Value, int, text, Expr, col, param, lit, add, Cond, eq, ge, le, and, Statement, create_table,
  insert_or_skip, update_value, select_value, delete, Row, IsInt4, Postgres, Column,
}

abbrev pub Table : Type 0
Table = Text → Option Row

abbrev pub or_else : Option Row → Row → Option Row
or_else none r = some r
or_else (some old) r = some old

-- INSERT … ON CONFLICT (name) DO NOTHING.
abbrev pub insert_row : Row → Table → Table
insert_row r t k = if text_eq r.name k then or_else (t k) r else t k

abbrev pub map_row : (Row → Row) → Option Row → Option Row
map_row f none = none
map_row f (some r) = some (f r)

-- UPDATE: `f` says what becomes of a row.
abbrev pub map_rows : (Row → Row) → Table → Table
map_rows f t k = map_row f (t k)

abbrev pub drop_row : (Row → Bool) → Option Row → Option Row
drop_row b none = none
drop_row b (some r) = if b r then none else some r

-- DELETE: `b` holds of the rows that go.
abbrev pub drop_rows : (Row → Bool) → Table → Table
drop_rows b t k = drop_row b (t k)

abbrev pub values : Option Row → List ℤ
values none = []
values (some r) = r.value ∷ []

-- What can be seen of a database: its open pools, whether the table is there, and its rows; and
-- the values of expressions, `none` for an error.
pub record View (P : Postgres) : Type 0 where
  pub has_table : P.Db → Bool
  pub is_open : P.Db → P.Pool → Bool
  pub row : P.Db → Table
  pub eval : List Value → Option Row → Expr → Option Value
  pub holds : List Value → Row → Cond → Option Bool

module _ {P : Postgres} (V : View P) where
  -- The pool is open and the table is there.
  abbrev pub IsReady : P.Db → P.Pool → Type 0
  IsReady db p = (V.is_open db p ≡ true) × (V.has_table db ≡ true)

  -- A call that succeeded: its result, the new table, and pools that are as they were.
  pub record Ran {A : Type 0} (db : P.Db) (out : Outcome A × P.Db) (a : A) (t : Table)
      : Type 0 where
    pub answered : out.0 ≡ ok a
    pub stored : (k : Text) → V.row out.1 k ≡ t k
    pub pools : (q : P.Pool) → V.is_open out.1 q ≡ V.is_open db q
    pub table : V.has_table out.1 ≡ true

  -- What an UPDATE does to one row.
  abbrev pub Updates : List Value → Expr → Cond → Row → Row → Type 0
  Updates args e c r r' =
      ((V.holds args r c ≡ some false) × (r' ≡ r))
      ⊎ ((v : ℤ) × (V.holds args r c ≡ some true)
          × (V.eval args (some r) e ≡ some (int v))
          × IsInt4 v
          × (r' ≡ record r { value = v }))

-- The documented behaviour of PostgreSQL and of `pg` that the program relies on.
pub record IsPostgres (P : Postgres) (V : View P) : Type 0 where
  pub key : (db : P.Db) (k : Text) (r : Row) → V.row db k ≡ some r → r.name ≡ k
  pub eval_param :
      (args : List Value) (r : Option Row) (i : ℕ)
      → V.eval args r (param (suc i)) ≡ get_elem? args i
  pub eval_lit : (args : List Value) (r : Option Row) (n : ℤ) → V.eval args r (lit n) ≡ some (int n)
  pub eval_name :
      (args : List Value) (r : Row) → V.eval args (some r) (col Column.name) ≡ some (text r.name)
  pub eval_value :
      (args : List Value) (r : Row) → V.eval args (some r) (col Column.value) ≡ some (int r.value)
  pub eval_max :
      (args : List Value) (r : Row) → V.eval args (some r) (col Column.max) ≡ some (int r.max)
  pub eval_add :
      (args : List Value) (r : Option Row) (a b : Expr) (x y : ℤ)
      → V.eval args r a ≡ some (int x)
      → V.eval args r b ≡ some (int y)
      → IsInt4 (x +ℤ y)
      → V.eval args r (add a b) ≡ some (int (x +ℤ y))
  pub holds_eq :
      (args : List Value) (r : Row) (a b : Expr) (s t : Text)
      → V.eval args (some r) a ≡ some (text s)
      → V.eval args (some r) b ≡ some (text t)
      → V.holds args r (eq a b) ≡ some (text_eq s t)
  pub holds_ge :
      (args : List Value) (r : Row) (a b : Expr) (x y : ℤ)
      → V.eval args (some r) a ≡ some (int x)
      → V.eval args (some r) b ≡ some (int y)
      → V.holds args r (ge a b) ≡ some (leb_ℤ y x)
  pub holds_le :
      (args : List Value) (r : Row) (a b : Expr) (x y : ℤ)
      → V.eval args (some r) a ≡ some (int x)
      → V.eval args (some r) b ≡ some (int y)
      → V.holds args r (le a b) ≡ some (leb_ℤ x y)
  pub holds_and :
      (args : List Value) (r : Row) (a b : Cond) (x y : Bool)
      → V.holds args r a ≡ some x
      → V.holds args r b ≡ some y
      → V.holds args r (and a b) ≡ some (x && y)
  pub run_create :
      (p : P.Pool) (db : P.Db)
      → V.is_open db p ≡ true
      → Ran V db (P.query p create_table [] db) [] (V.row db)
  pub run_insert :
      (p : P.Pool) (db : P.Db) (args : List Value) (a b c : Expr) (r : Row)
      → IsReady V db p
      → V.eval args none a ≡ some (text r.name)
      → V.eval args none b ≡ some (int r.value)
      → V.eval args none c ≡ some (int r.max)
      → IsInt4 r.value
      → IsInt4 r.max
      → Ran V db (P.query p (insert_or_skip a b c) args db) [] (insert_row r (V.row db))
  pub run_update :
      (p : P.Pool) (db : P.Db) (args : List Value) (e : Expr) (c : Cond) (f : Row → Row)
      → IsReady V db p
      → ((k : Text) (r : Row) → V.row db k ≡ some r → Updates V args e c r (f r))
      → Ran V db (P.query p (update_value e c) args db) [] (map_rows f (V.row db))
  pub run_select :
      (p : P.Pool) (db : P.Db) (args : List Value) (i : ℕ) (n : Text)
      → IsReady V db p
      → get_elem? args i ≡ some (text n)
      → P.query p (select_value (eq (col Column.name) (param (suc i)))) args db
        ≡ (ok (values (V.row db n)), db)
  pub run_delete :
      (p : P.Pool) (db : P.Db) (args : List Value) (c : Cond) (b : Row → Bool)
      → IsReady V db p
      → ((k : Text) (r : Row) → V.row db k ≡ some r → V.holds args r c ≡ some (b r))
      → Ran V db (P.query p (delete c) args db) [] (drop_rows b (V.row db))
  pub run_closed :
      (p : P.Pool) (s : Statement) (args : List Value) (db : P.Db)
      → V.is_open db p ≡ false
      → (m : Text) × (P.query p s args db ≡ (throw m, db))
  pub run_new_pool :
      (url : Text) (db : P.Db)
      → (p : P.Pool) × ((P.new_pool url db).0 ≡ ok p)
        × (V.is_open (P.new_pool url db).1 p ≡ true)
        × (V.has_table (P.new_pool url db).1 ≡ V.has_table db)
        × ((k : Text) → V.row (P.new_pool url db).1 k ≡ V.row db k)
  pub run_end_pool :
      (p : P.Pool) (db : P.Db)
      → V.is_open db p ≡ true
      → ((P.end_pool p db).0 ≡ ok tt)
        × (V.is_open (P.end_pool p db).1 p ≡ false)
        × ((k : Text) → V.row (P.end_pool p db).1 k ≡ V.row db k)
