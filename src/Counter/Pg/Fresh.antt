-- ===== src/Counter/Pg/Fresh.antt =====
-- Creating and deleting a counter: what becomes of its row and of the others.
use mathlib.Core.Path.{subst}
use fizzbee_mbt_examples.Prelude.{
  ◌≡◌, refl, arith, Option, none, some, some_injective, Outcome, ok, Text, inl, inr, ◌⊎◌, sym, ◌∙◌,
  text_eq, text_eq_refl, text_eq_iff, Bool, Bool-cases, ◌^◌, ◌-◌,
}
use fizzbee_mbt_examples.Prelude.Int.{ℤ, pos, ◌≤ℤ◌}
use fizzbee_mbt_examples.Counter.Pg.Database.{Row, Postgres}
use fizzbee_mbt_examples.Counter.Pg.Table.{
  Table, or_else, insert_row, drop_row, drop_rows, View, IsReady, Ran, IsPostgres,
}
use fizzbee_mbt_examples.Counter.Pg.{PgCounter, create}
use fizzbee_mbt_examples.Counter.Pg.Laws.{IsInRange, IsSafe, create-Ran}
use fizzbee_mbt_examples.Counter.Pg.Refines.{row_of, Stores}

or_else-eq-some : (o : Option Row) (r r' : Row) → or_else o r ≡ some r' → (o ≡ some r') ⊎ (r ≡ r')
or_else-eq-some none r r' h = inr (some_injective h)
or_else-eq-some (some old) r r' h = inl h

insert_row-eq-some :
    (r : Row) (t : Table) (k : Text) (r' : Row)
    → insert_row r t k ≡ some r'
    → (t k ≡ some r') ⊎ (r ≡ r')
insert_row-eq-some r t k r' h = elim (Bool-cases (text_eq r.name k)) [
  | inl same ↦ or_else-eq-some (t k) r r' (rw same at h)
  | inr other ↦ inl (rw other at h)
]

drop_row-eq-some : (b : Row → Bool) (o : Option Row) (r : Row) → drop_row b o ≡ some r → o ≡ some r
drop_row-eq-some b none r h = h
drop_row-eq-some b (some r') r h = ground arith

module _ (P : Postgres) (V : View P) (L : IsPostgres P V) {A : Type 0} {a : A} (db : P.Db)
    (out : Outcome A × P.Db) (safe : IsSafe V db) where
  insert-IsSafe :
      (r : Row) → IsInRange r → Ran V db out a (insert_row r (V.row db)) → IsSafe V out.1
  insert-IsSafe r h ran k r' e =
      elim (insert_row-eq-some r (V.row db) k r' (sym (ran.stored k) ∙ e)) [
        | inl old ↦ safe k r' old
        | inr new ↦ subst IsInRange new h
      ]

  drop-IsSafe : (b : Row → Bool) → Ran V db out a (drop_rows b (V.row db)) → IsSafe V out.1
  drop-IsSafe b ran k r' e = safe k r' (drop_row-eq-some b (V.row db k) r' (sym (ran.stored k) ∙ e))

module _ (P : Postgres) (V : View P) (L : IsPostgres P V) (n : Text) (db : P.Db) where
  drop_row_own : (o : Option Row) → V.row db n ≡ o → drop_row (λ r. text_eq r.name n) o ≡ none
  drop_row_own none e = refl
  drop_row_own (some r) e = ground (arith, L.key db n r e, text_eq_iff r.name n)

module _ (P : Postgres) (V : View P) (L : IsPostgres P V) (p : P.Pool) (n : Text) (max : ℤ)
    (db : P.Db) (low : pos 0 ≤ℤ max) (high : max ≤ℤ pos (2 ^ 31 - 2)) (ready : IsReady V db p)
    (safe : IsSafe V db) where
  abbrev pub handle : PgCounter P
  handle = record { pool = p; name = n; max = max }

  pub created : Ran V db (create P p n max db) handle (insert_row (row_of n (pos 0) max) (V.row db))
  created = create-Ran P V L p n max db ready (omega arith)

  pub create-IsSafe : IsSafe V (create P p n max db).1
  create-IsSafe = insert-IsSafe P V L db _ safe (row_of n (pos 0) max) (omega arith) created

  pub create-IsReady : IsReady V (create P p n max db).1 p
  create-IsReady = (created.pools p ∙ ready.0, created.table)

  own_row : V.row (create P p n max db).1 n ≡ or_else (V.row db n) (row_of n (pos 0) max)
  own_row = created.stored n ∙ rw (text_eq_refl n)

  -- A name that the table lacks starts at 0 with the given maximum.
  pub create-Stores : V.row db n ≡ none → Stores P V L handle max (pos 0) (create P p n max db).1
  create-Stores h = record { ready = create-IsReady; safe = create-IsSafe; row = own_row ∙ rw h }

  -- `create` of a name that the table has, on an open pool with the table there and every row in
  -- range, for a maximum from 0 to the largest INTEGER but one: it resolves to a counter of that
  -- pool, name and maximum, and the row of the name keeps its old value and its old maximum, whatever
  -- maximum is given, in a table with every row in range.
  pub create_existing :
      (v m : ℤ)
      → V.row db n ≡ some (row_of n v m)
      → ((create P p n max db).0 ≡ ok handle) × Stores P V L handle m v (create P p n max db).1
  create_existing v m h = (
    created.answered,
    record { ready = create-IsReady; safe = create-IsSafe; row = own_row ∙ rw h },
  )

module _ (P : Postgres) (V : View P) (L : IsPostgres P V) {A : Type 0} {a : A} (p : P.Pool)
    (n : Text) (db : P.Db) (out : Outcome A × P.Db) (ready : IsReady V db p)
    (safe : IsSafe V db) where
  -- After a DELETE of the name its row is gone, and the table is in range if it was.
  pub drop-gone :
      Ran V db out a (drop_rows (λ r. text_eq r.name n) (V.row db))
      → IsReady V out.1 p × IsSafe V out.1 × (V.row out.1 n ≡ none)
  drop-gone ran = (
    (ran.pools p ∙ ready.0, ran.table),
    drop-IsSafe P V L db out safe _ ran,
    ran.stored n ∙ drop_row_own P V L n db (V.row db n) refl,
  )
