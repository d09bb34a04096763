-- ===== src/Counter/Pg/Laws.antt =====
-- `PGCounter` as an operation on the table, for every database and server that `IsPostgres` covers.
use fizzbee_mbt_examples.Prelude.{
  ◌-◌, ◌^◌, List, [], ◌∷◌, ◌++◌, Option, none, some, ◌&&◌, ◌≡◌, refl, ◌⊎◌, inl, inr, Text, codes,
  text_eq, ok, throw, if◌then◌else◌, arith, Bool-cases, Option-cases, Outcome, continue,
}
use mathlib.Core.Path.{subst, sym, ◌∙◌}
use fizzbee_mbt_examples.Prelude.Int.{ℤ, pos, negsuc, ◌+ℤ◌, ◌≤ℤ◌, leb_ℤ}
use fizzbee_mbt_examples.Counter.Pg.Database.{
  Value, int, text, Column, col, param, lit, add, eq, ge, le, and, Row, IsInt4, Postgres,
}
use fizzbee_mbt_examples.Counter.Pg.Table.{
  Table, insert_row, map_row, map_rows, drop_rows, View, IsReady, Ran, Updates, IsPostgres,
}
use fizzbee_mbt_examples.Counter.Pg.{
  PgCounter, create, update, get, delete_counter, delete_statement,
}

-- A row whose value lies between 0 and its maximum, with room below the largest INTEGER.
pub record IsInRange (r : Row) : Type 0 where
  pub low : pos 0 ≤ℤ r.value
  pub high : r.value ≤ℤ r.max
  pub room : r.max ≤ℤ pos (2 ^ 31 - 2)

-- A change by one, up or down.
abbrev pub IsStep : ℤ → Type 0
IsStep d = (d ≡ pos 1) ⊎ (d ≡ negsuc 0)

-- What the UPDATE of the counter `n` by `d` makes of a row.
unfoldable pub bump : Text → ℤ → Row → Row
bump n d r =
    if (text_eq r.name n && leb_ℤ (pos 0) (r.value +ℤ d)) && leb_ℤ (r.value +ℤ d) r.max
    then record r { value = r.value +ℤ d }
    else r

bump-IsInRange : (n : Text) (d : ℤ) (r : Row) → IsInRange r → IsInRange (bump n d r)
unfolding bump ◌+ℤ◌
bump-IsInRange n d r h = ground arith

step-IsInt4 : (d : ℤ) (r : Row) → IsStep d → IsInRange r → IsInt4 (r.value +ℤ d)
unfolding ◌+ℤ◌
step-IsInt4 d r s h = ground arith

-- What `get` answers for the row of its name.
abbrev pub found : Text → Option Row → Outcome ℤ
found n none = throw (codes "Counter " ++ n ++ codes " not found")
found n (some r) = ok r.value

-- Every row of the table is in range.
abbrev pub IsSafe : {P : Postgres} → View P → P.Db → Type 0
IsSafe V db = (k : Text) (r : Row) → V.row db k ≡ some r → IsInRange r

map_row-eq-some :
    (f : Row → Row) (o : Option Row) (r : Row)
    → map_row f o ≡ some r
    → (r' : Row) × (o ≡ some r') × (f r' ≡ r)
map_row-eq-some f none r h = cc
map_row-eq-some f (some r') r h = (r', refl, cc)

module _ (P : Postgres) (V : View P) (L : IsPostgres P V) where
  module _ (c : PgCounter P) (d : ℤ) (r : Row) (s : IsStep d) (h : IsInRange r) where
    abbrev args : List Value
    args = int d ∷ text c.name ∷ []

    new_value : V.eval args (some r) (add (col Column.value) (param 1)) ≡ some (int (r.value +ℤ d))
    new_value =
        L.eval_add args (some r) _ _ r.value d (L.eval_value args r) (L.eval_param args (some r) 0)
          (step-IsInt4 d r s h)

    passes :
        V.holds args r (
          and
            (and
              (eq (col Column.name) (param 2))
              (ge (add (col Column.value) (param 1)) (lit (pos 0))))
            (le (add (col Column.value) (param 1)) (col Column.max)))
        ≡ some
            ((text_eq r.name c.name && leb_ℤ (pos 0) (r.value +ℤ d)) && leb_ℤ (r.value +ℤ d) r.max)
    passes =
        L.holds_and args r _ _ _ _
          (L.holds_and args r _ _ _ _
            (L.holds_eq args r _ _ r.name c.name (L.eval_name args r)
              (L.eval_param args (some r) 1))
            (L.holds_ge args r _ _ _ _ new_value (L.eval_lit args (some r) (pos 0))))
          (L.holds_le args r _ _ _ _ new_value (L.eval_max args r))

    bump-Updates :
        Updates V args
          (add (col Column.value) (param 1))
          (and
            (and
              (eq (col Column.name) (param 2))
              (ge (add (col Column.value) (param 1)) (lit (pos 0))))
            (le (add (col Column.value) (param 1)) (col Column.max)))
          r
          (bump c.name d r)
    unfolding bump
    bump-Updates =
        elim (Bool-cases
          ((text_eq r.name c.name && leb_ℤ (pos 0) (r.value +ℤ d)) && leb_ℤ (r.value +ℤ d) r.max)) [
            | inl e ↦ inr (r.value +ℤ d, rw e at passes, new_value, step-IsInt4 d r s h, rw e)
            | inr e ↦ inl (rw e at passes, rw e)
          ]

  -- A method that drops the rows of its statement.
  Ran-pure :
      {A B : Type 0} {db : P.Db} (out : Outcome A × P.Db) {a : A} (b : B) {t : Table}
      → Ran V db out a t
      → Ran V db (continue out (λ _ s. (ok b, s))) b t
  Ran-pure (ok a', s) b h = record {
    answered = refl;
    stored = h.stored;
    pools = h.pools;
    table = h.table;
  }
  Ran-pure (throw e, s) b h = absurd (cc (h.answered))

  -- `update` by 1 or by -1, on an open pool with the table there and every row in range (its value
  -- between 0 and its maximum, and that at most the largest INTEGER but one): it
  -- resolves, keeps every pool as it is and the table there, and leaves each row as `bump` makes it:
  -- the value of the row with the counter's name changes by the delta if the result lies between 0
  -- and the row's own maximum, and no other row changes.
  pub update-Ran :
      (c : PgCounter P) (d : ℤ) (db : P.Db)
      → IsStep d
      → IsReady V db c.pool
      → IsSafe V db
      → Ran V db (update P c d db) tt (map_rows (bump c.name d) (V.row db))
  unfolding update
  update-Ran c d db s ready safe = Ran-pure _ tt (
      L.run_update c.pool db _ _ _ (bump c.name d) ready λ k r e. bump-Updates c d r s (safe k r e))

  Ran-IsSafe :
      {A : Type 0} {a : A} (n : Text) (d : ℤ) (db : P.Db) (out : Outcome A × P.Db)
      → IsSafe V db
      → Ran V db out a (map_rows (bump n d) (V.row db))
      → IsSafe V out.1
  Ran-IsSafe n d db out safe ran k r e =
      let (r', old, new) = map_row-eq-some (bump n d) (V.row db k) r (sym (ran.stored k) ∙ e) in
      subst IsInRange new (bump-IsInRange n d r' (safe k r' old))

  -- `update` by 1 or by -1, on an open pool with the table there, keeps the following of every row,
  -- if it holds of every row before: its value lies between 0 and its maximum, and its maximum is at
  -- most 2^31 - 2, the largest INTEGER but one.
  pub update-IsSafe :
      (c : PgCounter P) (d : ℤ) (db : P.Db)
      → IsStep d
      → IsReady V db c.pool
      → IsSafe V db
      → IsSafe V (update P c d db).1
  update-IsSafe c d db s ready safe =
      Ran-IsSafe c.name d db (update P c d db) safe (update-Ran c d db s ready safe)

  pub create-Ran :
      (p : P.Pool) (n : Text) (m : ℤ) (db : P.Db)
      → IsReady V db p
      → IsInt4 m
      → Ran V db
          (create P p n m db)
          (record { pool = p; name = n; max = m })
          (insert_row (record { name = n; value = pos 0; max = m }) (V.row db))
  unfolding create
  create-Ran p n m db ready h = Ran-pure _ _ (
      L.run_insert p db _ _ _ _ (record { name = n; value = pos 0; max = m }) ready
        (L.eval_param _ none 0) (L.eval_lit _ none (pos 0)) (L.eval_param _ none 1) (omega arith) h)

  get-none :
      (c : PgCounter P) (db : P.Db)
      → IsReady V db c.pool
      → V.row db c.name ≡ none
      → get P c db ≡ (throw (codes "Counter " ++ c.name ++ codes " not found"), db)
  unfolding get
  get-none c db ready e = rw (L.run_select c.pool db (text c.name ∷ []) 0 c.name ready refl) (rw e)

  pub get-some :
      (c : PgCounter P) (db : P.Db) (r : Row)
      → IsReady V db c.pool
      → V.row db c.name ≡ some r
      → get P c db ≡ (ok r.value, db)
  unfolding get
  get-some c db r ready e =
      rw (L.run_select c.pool db (text c.name ∷ []) 0 c.name ready refl) (rw e)

  -- `get` on an open pool with the table there returns the value of the row with the counter's
  -- name, or throws that the counter is not found if there is none, and changes nothing.
  pub get-found :
      (c : PgCounter P) (db : P.Db)
      → IsReady V db c.pool
      → get P c db ≡ (found c.name (V.row db c.name), db)
  get-found c db ready = elim (Option-cases (V.row db c.name)) [
    | inl e ↦ get-none c db ready e ∙ rw e
    | inr (r, e) ↦ get-some c db r ready e ∙ rw e
  ]

  -- The DELETE of one name removes its row and no other.
  pub query_delete-Ran :
      (p : P.Pool) (n : Text) (db : P.Db)
      → IsReady V db p
      → Ran V db
          (P.query p delete_statement (text n ∷ []) db)
          []
          (drop_rows (λ r. text_eq r.name n) (V.row db))
  query_delete-Ran p n db ready =
      L.run_delete p db _ _ (λ r. text_eq r.name n) ready
        λ k r e. L.holds_eq _ r _ _ r.name n (L.eval_name _ r) (L.eval_param _ (some r) 0)

  -- `deleteCounter` on an open pool with the table there: it resolves, removes the row of the
  -- counter's name, and leaves the other rows, the pools and the table.
  pub delete_counter-Ran :
      (c : PgCounter P) (db : P.Db)
      → IsReady V db c.pool
      → Ran V db (delete_counter P c db) tt (drop_rows (λ r. text_eq r.name c.name) (V.row db))
  unfolding delete_counter
  delete_counter-Ran c db ready = Ran-pure _ tt (query_delete-Ran c.pool c.name db ready)
