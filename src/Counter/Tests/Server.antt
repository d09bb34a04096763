-- ===== src/Counter/Tests/Server.antt =====
-- A small database that behaves as `IsPostgres` says, so that the theorems about PostgreSQL can be
-- applied to it.
use fizzbee_mbt_examples.Prelude.{
  ℕ, suc, zero, ◌+◌, List, [], Option, none, some, Bool, true, false, ◌&&◌, ◌≡◌, ap, refl, Text,
  codes, text_eq, ok, throw, Exec, get_elem?, if◌then◌else◌, ◌==◌, arith, text_eq_iff,
}
use fizzbee_mbt_examples.Prelude.Int.{ℤ, ◌+ℤ◌, leb_ℤ}
use fizzbee_mbt_examples.Counter.Pg.Database.{
  Value, int, text, Expr, col, param, lit, add, Cond, eq, ge, le, and, Statement, create_table,
  insert_or_skip, update_value, select_value, delete, Row, Postgres, Column,
}
use fizzbee_mbt_examples.Counter.Pg.Table.{
  Table, or_else, insert_row, map_row, map_rows, drop_row, drop_rows, values, View, Ran, Updates,
  IsPostgres,
}

-- The value and the maximum of each counter, the pools that are open, and the next pool.
pub record Store : Type 0 where
  pub cells : Text → Option (ℤ × ℤ)
  pub created : Bool
  pub opened : ℕ → Bool
  pub next : ℕ

abbrev pub as_row : Text → Option (ℤ × ℤ) → Option Row
as_row k none = none
as_row k (some (v, m)) = some (record { name = k; value = v; max = m })

abbrev pub as_cell : Option Row → Option (ℤ × ℤ)
as_cell none = none
as_cell (some r) = some (r.value, r.max)

abbrev pub rows : Store → Table
rows s k = as_row k (s.cells k)

abbrev pub column : Option Row → Column → Option Value
column none c = none
column (some r) Column.name = some (text r.name)
column (some r) Column.value = some (int r.value)
column (some r) Column.max = some (int r.max)

abbrev pub plus : Option Value → Option Value → Option Value
plus (some (int x)) (some (int y)) = some (int (x +ℤ y))
plus _ _ = none

abbrev pub nth : List Value → ℕ → Option Value
nth args zero = none
nth args (suc i) = get_elem? args i

abbrev pub evaluate : List Value → Option Row → Expr → Option Value
evaluate args r (col c) = column r c
evaluate args r (param i) = nth args i
evaluate args r (lit n) = some (int n)
evaluate args r (add a b) = plus (evaluate args r a) (evaluate args r b)

abbrev pub equal : Option Value → Option Value → Option Bool
equal (some (text s)) (some (text t)) = some (text_eq s t)
equal _ _ = none

abbrev pub at_most : Option Value → Option Value → Option Bool
at_most (some (int x)) (some (int y)) = some (leb_ℤ x y)
at_most _ _ = none

abbrev pub both : Option Bool → Option Bool → Option Bool
both (some x) (some y) = some (x && y)
both _ _ = none

abbrev pub test : List Value → Row → Cond → Option Bool
test args r (eq a b) = equal (evaluate args (some r) a) (evaluate args (some r) b)
test args r (ge a b) = at_most (evaluate args (some r) b) (evaluate args (some r) a)
test args r (le a b) = at_most (evaluate args (some r) a) (evaluate args (some r) b)
test args r (and a b) = both (test args r a) (test args r b)

abbrev pub assign : Row → Option Value → Row
assign r (some (int v)) = record r { value = v }
assign r _ = r

abbrev pub updated : List Value → Expr → Cond → Row → Row
updated args e c r = elim (test args r c) [
  | some true ↦ assign r (evaluate args (some r) e)
  | _ ↦ r
]

abbrev pub removed : List Value → Cond → Row → Bool
removed args c r = elim (test args r c) [ some true ↦ true | _ ↦ false ]

abbrev pub inserted : Option Value → Option Value → Option Value → Table → Table
inserted (some (text n)) (some (int v)) (some (int m)) t =
    insert_row (record { name = n; value = v; max = m }) t
inserted _ _ _ t = t

abbrev pub put : Store → Table → Store
put s t = record s { cells = λ k. as_cell (t k) }

abbrev pub pick : Store → Option Value → List ℤ
pick s (some (text n)) = values (rows s n)
pick s _ = []

abbrev pub selected : Store → List Value → Cond → List ℤ
selected s args (eq (col Column.name) (param i)) = pick s (nth args i)
selected s args _ = []

abbrev pub run : Store → Statement → List Value → List ℤ × Store
run s create_table args = ([], record s { created = true })
run s (insert_or_skip a b c) args = (
  [],
  put s (inserted (evaluate args none a) (evaluate args none b) (evaluate args none c) (rows s)),
)
run s (update_value e c) args = ([], put s (map_rows (updated args e c) (rows s)))
run s (select_value c) args = (selected s args c, s)
run s (delete c) args = ([], put s (drop_rows (removed args c) (rows s)))

abbrev pub ended : Text
ended = codes "Cannot use a pool after calling end on the pool"

unfoldable pub query : ℕ → Statement → List Value → Exec Store (List ℤ)
query p q args s =
    if s.opened p then (let (r, s') = run s q args in (ok r, s')) else (throw ended, s)

unfoldable pub new_pool : Text → Exec Store ℕ
new_pool url s = (
  ok s.next,
  record s { opened = λ q. if q == s.next then true else s.opened q; next = s.next + 1 },
)

unfoldable pub end_pool : ℕ → Exec Store (Unit {0})
end_pool p s = (ok tt, record s { opened = λ q. if q == p then false else s.opened q })

abbrev pub server : Postgres
server = record { Db = Store; Pool = ℕ; new_pool = new_pool; query = query; end_pool = end_pool }

abbrev pub view : View server
view = record {
  has_table = λ s. s.created;
  is_open = λ s. s.opened;
  row = rows;
  eval = evaluate;
  holds = test;
}

row_key : (k : Text) (o : Option (ℤ × ℤ)) (r : Row) → as_row k o ≡ some r → r.name ≡ k
row_key k none r h = cc
row_key k (some (v, m)) r h = ground arith

-- A table whose rows carry their key is stored as it is.
stored_row :
    (k : Text) (o : Option Row) → ((r : Row) → o ≡ some r → r.name ≡ k) → as_row k (as_cell o) ≡ o
stored_row k none h = refl
stored_row k (some r) h = rw (← h r refl)

run_update-row :
    (args : List Value) (e : Expr) (c : Cond) (f : Row → Row) (k : Text) (o : Option (ℤ × ℤ))
    → ((r : Row) → as_row k o ≡ some r → Updates view args e c r (f r))
    → as_row k (as_cell (map_row (updated args e c) (as_row k o))) ≡ map_row f (as_row k o)
run_update-row args e c f k none h = refl
run_update-row args e c f k (some (v, m)) h =
    ground (arith, h (record { name = k; value = v; max = m }) refl)

run_delete-row :
    (args : List Value) (c : Cond) (b : Row → Bool) (k : Text) (o : Option (ℤ × ℤ))
    → ((r : Row) → as_row k o ≡ some r → test args r c ≡ some (b r))
    → as_row k (as_cell (drop_row (removed args c) (as_row k o))) ≡ drop_row b (as_row k o)
run_delete-row args c b k none h = refl
run_delete-row args c b k (some (v, m)) h =
    ground (arith, h (record { name = k; value = v; max = m }) refl)

run_insert-row :
    (r : Row) (k : Text) (o : Option (ℤ × ℤ))
    → as_row k (as_cell (if text_eq r.name k then or_else (as_row k o) r else as_row k o))
      ≡ (if text_eq r.name k then or_else (as_row k o) r else as_row k o)
run_insert-row r k none = ground (arith, text_eq_iff r.name k)
run_insert-row r k (some (v, m)) = ground (arith, text_eq_iff r.name k)

eval_add-eq :
    (args : List Value) (r : Option Row) (a b : Expr) (x y : ℤ)
    → evaluate args r a ≡ some (int x)
    → evaluate args r b ≡ some (int y)
    → evaluate args r (add a b) ≡ some (int (x +ℤ y))
eval_add-eq args r a b x y h k = rw (h, k)

module _ (p : ℕ) (s : Store) (ready : s.opened p ≡ true) where
  query-run :
      (q : Statement) (args : List Value)
      → query p q args s ≡ (ok (run s q args).0, (run s q args).1)
  unfolding query
  query-run q args = rw ready

  query-Ran :
      (q : Statement) (args : List Value) (rs : List ℤ) (t : Table)
      → (run s q args).0 ≡ rs
      → ((k : Text) → rows (run s q args).1 k ≡ t k)
      → ((i : ℕ) → (run s q args).1.opened i ≡ s.opened i)
      → (run s q args).1.created ≡ true
      → Ran view s (query p q args s) rs t
  query-Ran q args rs t h stored pools made =
      rw (query-run q args)
        (record { answered = ap ok h; stored = stored; pools = pools; table = made })

insert-row :
    (args : List Value) (a b c : Expr) (r : Row) (s : Store) (k : Text)
    → evaluate args none a ≡ some (text r.name)
    → evaluate args none b ≡ some (int r.value)
    → evaluate args none c ≡ some (int r.max)
    → rows (run s (insert_or_skip a b c) args).1 k ≡ insert_row r (rows s) k
insert-row args a b c r s k ha hb hc = rw (ha, hb, hc) (run_insert-row r k (s.cells k))

query_select :
    (p : ℕ) (s : Store) (args : List Value) (i : ℕ) (n : Text)
    → s.opened p ≡ true
    → get_elem? args i ≡ some (text n)
    → query p (select_value (eq (col Column.name) (param (suc i)))) args s
      ≡ (ok (values (rows s n)), s)
query_select p s args i n h e = rw (query-run p s h, e)

query_closed :
    (p : ℕ) (q : Statement) (args : List Value) (s : Store)
    → s.opened p ≡ false
    → query p q args s ≡ (throw ended, s)
unfolding query
query_closed p q args s h = rw h

-- The database meets every assumption.
pub server-IsPostgres : IsPostgres server view
unfolding new_pool end_pool
server-IsPostgres = record {
  key = λ s k r h. row_key k (s.cells k) r h;
  eval_param = λ args r i. refl;
  eval_lit = λ args r n. refl;
  eval_name = λ args r. refl;
  eval_value = λ args r. refl;
  eval_max = λ args r. refl;
  eval_add = λ args r a b x y h k _. eval_add-eq args r a b x y h k;
  holds_eq = λ args r a b x y h k. rw (h, k);
  holds_ge = λ args r a b x y h k. rw (h, k);
  holds_le = λ args r a b x y h k. rw (h, k);
  holds_and = λ args r a b x y h k. rw (h, k);
  run_create = λ p s h. query-Ran p s h create_table [] [] _ refl (λ k. refl) (λ i. refl) refl;
  run_insert = λ p s args a b c r h ha hb hc _ _.
      query-Ran p s h.0 (insert_or_skip a b c) args [] _ refl
        (λ k. insert-row args a b c r s k ha hb hc) (λ i. refl) h.1;
  run_update = λ p s args e c f h u.
      query-Ran p s h.0 (update_value e c) args [] _ refl
        (λ k. run_update-row args e c f k (s.cells k) (u k)) (λ i. refl) h.1;
  run_select = λ p s args i n h e. query_select p s args i n h.0 e;
  run_delete = λ p s args c b h u.
      query-Ran p s h.0 (delete c) args [] _ refl (λ k. run_delete-row args c b k (s.cells k) (u k))
        (λ i. refl) h.1;
  run_closed = λ p q args s h. (ended, query_closed p q args s h);
  run_new_pool = λ url s. (s.next, refl, ground arith, refl, λ k. refl);
  run_end_pool = λ p s h. (refl, ground arith, λ k. refl);
}
