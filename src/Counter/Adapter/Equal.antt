-- ===== src/Counter/Adapter/Equal.antt =====
-- The two counters, pg_counter.ts and mem_counter.ts, beside each other through the adapter.
use fizzbee_mbt_examples.Prelude.{◌^◌, ◌-◌, List, none, ok, Text, ◌≡◌, refl, sym, ◌∙◌}
use fizzbee_mbt_examples.Prelude.Int.{ℤ, pos, ◌≤ℤ◌}
use fizzbee_mbt_examples.Counter.Defs.{Counter}
use fizzbee_mbt_examples.Counter.Spec.{Action}
use fizzbee_mbt_examples.Counter.Mem.{mem_counter}
use fizzbee_mbt_examples.Counter.Mem
use fizzbee_mbt_examples.Counter.Mem.Refines.{Matches, mem_counter-Simulates, create-Matches}
use fizzbee_mbt_examples.Counter.Pg
use fizzbee_mbt_examples.Counter.Pg.{PgCounter, pg_counter}
use fizzbee_mbt_examples.Counter.Pg.Database.{Postgres}
use fizzbee_mbt_examples.Counter.Pg.Table.{View, IsReady, IsPostgres}
use fizzbee_mbt_examples.Counter.Pg.Laws.{IsSafe}
use fizzbee_mbt_examples.Counter.Pg.Refines.{pg_counter-Simulates}
use fizzbee_mbt_examples.Counter.Pg.Fresh.{handle, created, create-Stores}
use fizzbee_mbt_examples.Counter.Adapter.Refines.{Simulates, perform_all, perform_all-trace}

-- Two counters that simulate the specification from one value give the same replies.
Simulates-equal :
    (Arg : Type 0) {S T : Type 0} (c : Counter S) (d : Counter T) (max v : ℤ) (R : ℤ → S → Type 0)
    (Q : ℤ → T → Type 0) (s : S) (t : T)
    → Simulates max c R
    → Simulates max d Q
    → R v s
    → Q v t
    → (l : List (Action × List Arg)) → (perform_all Arg c l s).0 ≡ (perform_all Arg d l t).0
Simulates-equal Arg c d max v R Q s t sim sim' r q l =
    (perform_all-trace Arg c max R sim l v s r).0
    ∙ sym (perform_all-trace Arg d max Q sim' l v t q).0

-- `PGCounter.create` for a name that the table lacks, on an open pool with the table there and every
-- row in range, with a maximum from 0 to the largest INTEGER but one, resolves to a counter of that
-- pool, name and maximum, and the counter that it resolves to and a new `MemCounter` with the same
-- maximum give, through the adapter's registry, the same outcomes for every sequence of actions.
pub pg-mem :
    (Arg : Type 0) (P : Postgres) (V : View P) (L : IsPostgres P V) (p : P.Pool) (n : Text)
    (max : ℤ) (db : P.Db) (low : pos 0 ≤ℤ max) (high : max ≤ℤ pos (2 ^ 31 - 2))
    (ready : IsReady V db p) (safe : IsSafe V db) (l : List (Action × List Arg))
    → V.row db n ≡ none
    → (c : PgCounter P) × ((Pg.create P p n max db).0 ≡ ok c)
      × (c ≡ record { pool = p; name = n; max = max })
      × ((perform_all Arg (pg_counter P c) l (Pg.create P p n max db).1).0
          ≡ (perform_all Arg mem_counter l (Mem.create max)).0)
pg-mem Arg P V L p n max db low high ready safe l fresh = (
  handle P V L p n max db low high ready safe,
  (created P V L p n max db low high ready safe).answered,
  refl,
  Simulates-equal Arg (pg_counter P (handle P V L p n max db low high ready safe)) mem_counter max
      (pos 0) _ (Matches max) _ _
      (pg_counter-Simulates P V L (handle P V L p n max db low high ready safe) max)
      (mem_counter-Simulates max) (create-Stores P V L p n max db low high ready safe fresh)
      (create-Matches max low) l,
)
