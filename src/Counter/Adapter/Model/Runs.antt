-- ===== src/Counter/Adapter/Model/Runs.antt =====
-- A run on the counter that `init` of counter_adapters.ts sets up, beside counter.fizz.
use fizzbee_mbt_examples.Prelude.{
  ℕ, List, some, ◌≡◌, refl, arith, ok, true, false, Exec, Outcome, codes, map, map_get, get_elem?,
  length, get_elem?-set_self, get_elem?-append,
}
use fizzbee_mbt_examples.Prelude.Int.{ℤ, pos}
use fizzbee_mbt_examples.Counter.Spec.{Action, trace, max_value}
use fizzbee_mbt_examples.Counter.Mem.{MemCounter, mem_counter}
use fizzbee_mbt_examples.Counter.Mem
use fizzbee_mbt_examples.Counter.Mem.Refines.{Matches, mem_counter-Simulates, create-Matches}
use fizzbee_mbt_examples.Counter.Pg.{PgCounter}
use fizzbee_mbt_examples.Counter.Pg.Database.{Postgres}
use fizzbee_mbt_examples.Counter.Pg.Table.{View, IsPostgres}
use fizzbee_mbt_examples.Counter.Pg.Laws.{IsSafe}
use fizzbee_mbt_examples.Counter.Pg.Refines.{Stores, pg_counter-Simulates}
use fizzbee_mbt_examples.Counter.Adapter.Refines.{Simulates, reply, perform_all, perform_all-trace}
use fizzbee_mbt_examples.Counter.Adapter.Model.{
  start, World, CounterRef, mem, pg, on_mem, deref, init, make_counter, get_roles, database_url,
}
use fizzbee_mbt_examples.Counter.Adapter.Model.Init.{init_pg-eq, fresh-Stores, handle}

module _ (P : Postgres) where
  -- The object at the address `i` holds the specification's value.
  pub record Holds (i : ℕ) (max v : ℤ) (w : World P) : Type 0 where
    pub object : MemCounter
    pub found : get_elem? w.heap i ≡ some object
    pub agrees : Matches max v object

  on_mem-Holds :
      {A : Type 0} (i : ℕ) (max v v' : ℤ) (m : Exec MemCounter A) (a : A) (w : World P)
      (h : Holds i max v w)
      → (m h.object).0 ≡ ok a
      → Matches max v' (m h.object).1
      → ((on_mem P i m w).0 ≡ ok a) × Holds i max v' (on_mem P i m w).1
  on_mem-Holds i max v v' m a w h e k =
      rw (h.found, on_mem)
        (
          e,
          record {
            object = (m h.object).1;
            found = get_elem?-set_self w.heap i _ h.object h.found;
            agrees = k;
          },
        )

  pub mem-Simulates : (i : ℕ) (max : ℤ) → Simulates max (deref P (mem i)) (Holds i max)
  mem-Simulates i max =
      let s = mem_counter-Simulates max in
      record {
        inc = λ v w h.
            let (e, k) = s.inc v h.object h.agrees in on_mem-Holds i max v _ Mem.inc tt w h e k;
        get = λ v w h.
            let (e, k) = s.get v h.object h.agrees in on_mem-Holds i max v _ Mem.get v w h e k;
        dec = λ v w h.
            let (e, k) = s.dec v h.object h.agrees in on_mem-Holds i max v _ Mem.dec tt w h e k;
      }

  pub pg-Simulates :
      (V : View P) (L : IsPostgres P V) (c : PgCounter P) (max : ℤ)
      → Simulates max (deref P (pg c)) (λ v w. Stores P V L c max v w.db)
  pg-Simulates V L c max =
      let s = pg_counter-Simulates P V L c max in
      record {
        inc = λ v w h. s.inc v w.db h;
        get = λ v w h. s.get v w.db h;
        dec = λ v w h. s.dec v w.db h;
      }

module _ (Arg : Type 0) (P : Postgres) (V : View P) (L : IsPostgres P V) where
  -- A start of a run that succeeded: the role that the adapter hands out answers every sequence of
  -- actions as counter.fizz does from its initial state.
  pub record IsFresh (out : Outcome (Unit {0}) × World P) : Type 0 where
    pub done : out.0 ≡ ok tt
    pub ref : CounterRef P
    pub listed : map_get (codes "Counter#0") (get_roles P out.1) ≡ some (some ref)
    pub answers :
        (l : List (Action × List Arg))
        → (perform_all Arg (deref P ref) l out.1).0
          ≡ map reply (trace max_value (map (λ x. x.0) l) (pos 0)).0

  start_mem : (w : World P) → IsFresh (start P true w)
  unfolding start get_roles
  start_mem w = record {
    done = refl;
    ref = mem (length w.heap);
    listed = refl;
    answers = λ l.
        (perform_all-trace Arg (deref P (mem (length w.heap))) max_value
          (Holds P (length w.heap) max_value) (mem-Simulates P (length w.heap) max_value) l (pos 0)
          _
          (record {
            object = Mem.create max_value;
            found = get_elem?-append w.heap _;
            agrees = create-Matches max_value (omega arith);
          })).0;
  }

  start_pg : (w : World P) → IsSafe V w.db → IsFresh (start P false w)
  unfolding start get_roles make_counter
  start_pg w safe =
      let (p, made, open_now, tab, rows) = L.run_new_pool database_url w.db in
      let e = init_pg-eq P V L w.db safe p open_now rows w.self w.heap made in
      rw e (record {
        done = refl;
        ref = pg (handle P V L w.db safe p open_now rows);
        listed = refl;
        answers = λ l.
            (perform_all-trace Arg (deref P (pg (handle P V L w.db safe p open_now rows))) max_value
              (λ v u. Stores P V L (handle P V L w.db safe p open_now rows) max_value v u.db)
              (pg-Simulates P V L (handle P V L w.db safe p open_now rows) max_value) l (pos 0) _
              (fresh-Stores P V L w.db safe p open_now rows)).0;
      })

  -- Whatever earlier runs left: `init` succeeds, and the role that `getRoles` then lists answers
  -- every sequence of actions as counter.fizz does from its initial state. With PostgreSQL this
  -- needs a server as in `IsPostgres`, and a table whose rows are in range.
  pub init-IsFresh : (w : World P) → IsSafe V w.db → IsFresh (init P w)
  unfolding init
  init-IsFresh w safe = elim w.self.use_mem_counter as (λ b. IsFresh (start P b w)) [
    | true ↦ start_mem w
    | false ↦ start_pg w safe
  ]
