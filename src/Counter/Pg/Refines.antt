-- ===== src/Counter/Pg/Refines.antt =====
-- `PGCounter` against counter.fizz.
use fizzbee_mbt_examples.Prelude.{ok, ◌≡◌, refl, arith, some, Text, inl, inr, ap, ◌∙◌, text_eq_iff}
use fizzbee_mbt_examples.Prelude.Int.{ℤ, pos, negsuc}
use fizzbee_mbt_examples.Counter.Spec
use fizzbee_mbt_examples.Counter.Spec.{Action, trace}
use fizzbee_mbt_examples.Counter.Pg.Database.{Row, Postgres}
use fizzbee_mbt_examples.Counter.Pg.Table.{map_row, View, IsReady, IsPostgres}
use fizzbee_mbt_examples.Counter.Pg.{PgCounter, inc, dec, update, pg_counter}
use fizzbee_mbt_examples.Counter.Pg.Laws.{
  IsInRange, IsStep, bump, IsSafe, update-Ran, update-IsSafe, get-some,
}
use fizzbee_mbt_examples.Counter.Adapter.Refines.{Simulates}

pub bump-inc :
    (n : Text) (r : Row)
    → IsInRange r
    → r.name ≡ n
    → bump n (pos 1) r ≡ record r { value = (Spec.step r.max Spec.inc r.value).1 }
unfolding bump Spec.step
bump-inc n r h e = ground (arith, text_eq_iff r.name n)

pub bump-dec :
    (n : Text) (r : Row)
    → IsInRange r
    → r.name ≡ n
    → bump n (negsuc 0) r ≡ record r { value = (Spec.step r.max Spec.dec r.value).1 }
unfolding bump Spec.step
bump-dec n r h e = ground (arith, text_eq_iff r.name n)

abbrev pub row_of : Text → ℤ → ℤ → Row
row_of n v max = record { name = n; value = v; max = max }

module _ (P : Postgres) (V : View P) (L : IsPostgres P V) (c : PgCounter P) (max : ℤ) where
  -- The counter's row holds the specification's value and maximum, in a table in range.
  pub record Stores (v : ℤ) (db : P.Db) : Type 0 where
    pub ready : IsReady V db c.pool
    pub safe : IsSafe V db
    pub row : V.row db c.name ≡ some (row_of c.name v max)

  module _ (v d w : ℤ) (db : P.Db) (s : IsStep d) (h : Stores v db)
      (next : bump c.name d (row_of c.name v max) ≡ row_of c.name w max) where
    update-Stores : ((update P c d db).0 ≡ ok tt) × Stores w (update P c d db).1
    update-Stores =
        let ran = update-Ran P V L c d db s h.ready h.safe in
        (
          ran.answered,
          record {
            ready = (ran.pools c.pool ∙ h.ready.0, ran.table);
            safe = update-IsSafe P V L c d db s h.ready h.safe;
            row = ran.stored c.name ∙ ap (map_row (bump c.name d)) h.row ∙ ap some next;
          },
        )

  Stores-IsInRange : (v : ℤ) (db : P.Db) → Stores v db → IsInRange (row_of c.name v max)
  Stores-IsInRange v db h = h.safe c.name _ h.row

  pub pg_counter-Simulates : Simulates max (pg_counter P c) Stores
  unfolding inc dec
  pg_counter-Simulates = record {
    inc = λ v db h.
        update-Stores v (pos 1) _ db (inl refl) h
          (bump-inc c.name _ (Stores-IsInRange v db h) refl);
    get = λ v db h. rw (get-some P V L c db _ h.ready h.row) (refl, h);
    dec = λ v db h.
        update-Stores v (negsuc 0) _ db (inr refl) h
          (bump-dec c.name _ (Stores-IsInRange v db h) refl);
  }
