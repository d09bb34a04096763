-- ===== src/Counter/Adapter/Model/Sessions.antt =====
-- The runner's runs one after the other: `init`, actions on the role that `getRoles` lists, and
-- `cleanup`.
use fizzbee_mbt_examples.Prelude.{
  ℕ, List, [], ◌∷◌, ◌++◌, Option, some, true, false, Text, codes, Exec, Outcome, ok, raise, pure,
  ◌>>=◌, ◌>>◌, ◌≡◌, refl, sym, ap, ◌∙◌, arith, map, map_get, get_elem?, length, get_elem?-append,
  Option-cases, Bool-cases, inl, inr,
}
use mathlib.Core.Path.{subst}
use fizzbee_mbt_examples.Prelude.Int.{pos}
use fizzbee_mbt_examples.Counter.Spec.{Action, trace, max_value}
use fizzbee_mbt_examples.Counter.Mem
use fizzbee_mbt_examples.Counter.Mem.{MemCounter}
use fizzbee_mbt_examples.Counter.Mem.Refines.{create-Matches}
use fizzbee_mbt_examples.Counter.Pg.Database.{Postgres}
use fizzbee_mbt_examples.Counter.Pg.Table.{View, IsPostgres}
use fizzbee_mbt_examples.Counter.Pg.{PgCounter}
use fizzbee_mbt_examples.Counter.Pg.Laws.{IsSafe}
use fizzbee_mbt_examples.Counter.Pg.Refines.{Stores}
use fizzbee_mbt_examples.Counter.Adapter.{Reply}
use fizzbee_mbt_examples.Counter.Adapter.Refines.{
  reply, perform_all, perform_all-trace, Keeps, Simulates-Keeps,
}
use fizzbee_mbt_examples.Counter.Adapter.Model.{
  start, World, CounterModelAdapter, CounterRef, mem, pg, on_mem, deref, init, make_counter,
  get_roles, cleanup, database_url,
}
use fizzbee_mbt_examples.Counter.Adapter.Model.Init.{
  init_pg-eq, fresh-Stores, handle, fresh, connected,
}
use fizzbee_mbt_examples.Counter.Adapter.Model.Runs.{Holds, mem-Simulates, pg-Simulates}
use fizzbee_mbt_examples.Counter.Adapter.Model.Cleanup.{cleanup-closes, cleanup-IsSafe}

module _ (Arg : Type 0) (P : Postgres) where
  abbrev on_role :
      Option (Option (CounterRef P))
      → List (Action × List Arg)
      → Exec (World P) (List (Outcome Reply))
  on_role (some (some ref)) l w =
      (ok (perform_all Arg (deref P ref) l w).0, (perform_all Arg (deref P ref) l w).1)
  on_role _ l w = raise (codes "no role") w

  abbrev act : List (Action × List Arg) → Exec (World P) (List (Outcome Reply))
  act l w = on_role (map_get (codes "Counter#0") (get_roles P w)) l w

  unfoldable pub session : List (Action × List Arg) → Exec (World P) (List (Outcome Reply))
  session l = do init P; rs ← act l; cleanup P; pure rs

  unfoldable pub sessions :
      List (List (Action × List Arg)) → Exec (World P) (List (List (Outcome Reply)))
  sessions [] = pure []
  sessions (l ∷ ls) = do rs ← session l; rest ← sessions ls; pure (rs ∷ rest)

  -- What the specification answers to a run from its initial state.
  abbrev pub answers : List (Action × List Arg) → List (Outcome Reply)
  answers l = map reply (trace max_value (map (λ x. x.0) l) (pos 0)).0

module _ (P : Postgres) where
  -- The adapter and the database, which the objects in memory have no part in.
  abbrev rest : World P → CounterModelAdapter P × P.Db
  rest w = (w.self, w.db)

  on_mem-rest :
      {A : Type 0} (i : ℕ) (m : Exec MemCounter A) (w : World P) → rest (on_mem P i m w).1 ≡ rest w
  on_mem-rest i m w = elim (Option-cases (get_elem? w.heap i)) [
    | inl h ↦ rw (h, on_mem) refl
    | inr (c, h) ↦ rw (h, on_mem) refl
  ]

  mem-Keeps : (i : ℕ) → Keeps (deref P (mem i)) rest
  mem-Keeps i = record {
    inc = on_mem-rest i Mem.inc;
    get = on_mem-rest i Mem.get;
    dec = on_mem-rest i Mem.dec;
  }

module _ (Arg : Type 0) (P : Postgres) where
  session-parts :
      (l : List (Action × List Arg)) (w w1 w2 w3 : World P) (rs : List (Outcome Reply))
      → init P w ≡ (ok tt, w1)
      → act Arg P l w1 ≡ (ok rs, w2)
      → cleanup P w2 ≡ (ok tt, w3)
      → session Arg P l w ≡ (ok rs, w3)
  unfolding session
  session-parts l w w1 w2 w3 rs starts acts ends = rw (starts, acts, ends) refl

  act-eq :
      (l : List (Action × List Arg)) (w : World P) (ref : CounterRef P) (rs : List (Outcome Reply))
      → w.self.counter_role ≡ some ref
      → (perform_all Arg (deref P ref) l w).0 ≡ rs
      → act Arg P l w ≡ (ok rs, (perform_all Arg (deref P ref) l w).1)
  unfolding get_roles
  act-eq l w ref rs role same =
      ap (λ r. on_role Arg P (some r) l w) role
      ∙ ap (λ x. (ok x, (perform_all Arg (deref P ref) l w).1)) same

module _ (Arg : Type 0) (P : Postgres) (V : View P) (L : IsPostgres P V) where
  -- A run that answers as the specification does, and leaves the rows in range.
  abbrev Answers : List (Action × List Arg) → World P → Type 0
  Answers l w = (w' : World P) × (session Arg P l w ≡ (ok (answers Arg P l), w')) × IsSafe V w'.db

  module _ (l : List (Action × List Arg)) (w : World P) (safe : IsSafe V w.db) where
    abbrev in_memory : World P
    in_memory = record {
      self = record w.self {
        counter = some (mem (length w.heap));
        counter_role = some (mem (length w.heap));
      };
      heap = w.heap ++ Mem.create max_value ∷ [];
      db = w.db;
    }

    init_mem-eq : w.self.use_mem_counter ≡ true → init P w ≡ (ok tt, in_memory)
    unfolding init start
    init_mem-eq flag = rw flag refl

    cleanup_mem-eq : (u : World P) → u.self.use_mem_counter ≡ true → cleanup P u ≡ (ok tt, u)
    unfolding cleanup
    cleanup_mem-eq u flag = rw flag refl

    mem-Answers : w.self.use_mem_counter ≡ true → Answers l w
    mem-Answers flag =
        let i = length w.heap in
        let (same, (holds, kept)) =
          perform_all-trace Arg (deref P (mem i)) max_value _
            (Simulates-Keeps max_value (deref P (mem i)) (Holds P i max_value) (rest P)
              (rest P in_memory) (mem-Simulates P i max_value) (mem-Keeps P i))
            l (pos 0) in_memory
            (
              record {
                object = Mem.create max_value;
                found = get_elem?-append w.heap _;
                agrees = create-Matches max_value (omega arith);
              },
              refl,
            ) in
        let end = (perform_all Arg (deref P (mem i)) l in_memory).1 in
        (
          end,
          session-parts Arg P l w in_memory end end _ (init_mem-eq flag)
              (act-eq Arg P l in_memory (mem i) _ refl same)
              (cleanup_mem-eq end (ap (λ r. r.0.use_mem_counter) kept ∙ flag)),
          subst (IsSafe V) (sym (ap (λ r. r.1) kept)) safe,
        )

    module _ (p : P.Pool) (made : (P.new_pool database_url w.db).0 ≡ ok p)
        (open_now : V.is_open (connected P V L w.db safe) p ≡ true)
        (rows : (k : Text) → V.row (connected P V L w.db safe) k ≡ V.row w.db k) where
      abbrev object : PgCounter P
      object = handle P V L w.db safe p open_now rows

      abbrev in_database : World P
      in_database = record {
        self = record w.self {
          pool = some p;
          counter = some (pg object);
          counter_role = some (pg object);
        };
        heap = w.heap;
        db = fresh P V L w.db safe p open_now rows;
      }

      start-eq : start P false w ≡ (ok tt, in_database)
      unfolding start make_counter
      start-eq = rw (init_pg-eq P V L w.db safe p open_now rows w.self w.heap made) refl

      init_database-eq : w.self.use_mem_counter ≡ false → init P w ≡ (ok tt, in_database)
      unfolding init
      init_database-eq flag = ap (λ b. start P b w) flag ∙ start-eq

      pg-Keeps : Keeps (deref P (pg object)) (λ (u : World P). u.self)
      pg-Keeps = record { inc = λ u. refl; get = λ u. refl; dec = λ u. refl }

      pg-Answers : w.self.use_mem_counter ≡ false → Answers l w
      pg-Answers flag =
          let (same, (stores, kept)) =
            perform_all-trace Arg (deref P (pg object)) max_value _
              (Simulates-Keeps max_value (deref P (pg object))
                (λ v (u : World P). Stores P V L object max_value v u.db) (λ u. u.self)
                in_database.self (pg-Simulates P V L object max_value) pg-Keeps)
              l (pos 0) in_database (fresh-Stores P V L w.db safe p open_now rows, refl) in
          let end = (perform_all Arg (deref P (pg object)) l in_database).1 in
          let off = ap (λ a. a.use_mem_counter) kept ∙ flag in
          let pool = ap (λ a. a.pool) kept in
          let closed = cleanup-closes P V L end p off pool stores.ready stores.safe in
          (
            (cleanup P end).1,
            session-parts Arg P l w in_database end (cleanup P end).1 _ (init_database-eq flag)
                (act-eq Arg P l in_database (pg object) _ refl same)
                (ap (λ x. (x, (cleanup P end).1)) closed.0),
            cleanup-IsSafe P V L end p off pool stores.ready stores.safe,
          )

    session-Answers : Answers l w
    session-Answers = elim (Bool-cases w.self.use_mem_counter) [
      | inl flag ↦ mem-Answers flag
      | inr flag ↦
          let (p, made, open_now, tab, rows) = L.run_new_pool database_url w.db in
          pg-Answers p made open_now rows flag
    ]

  -- Whichever of the two counters the adapter is for, on a server as in `IsPostgres` with a table
  -- whose rows are in range: for any number of runs, one after the other, each with `init` before it
  -- and `cleanup` after it and with any actions on the role that `getRoles` lists, everything
  -- resolves, in each run the actions are answered as counter.fizz does from its initial state, and
  -- the table is left with its rows in range.
  pub sessions-Answers :
      (ls : List (List (Action × List Arg))) (w : World P)
      → IsSafe V w.db
      → (w' : World P) × (sessions Arg P ls w ≡ (ok (map (answers Arg P) ls), w')) × IsSafe V w'.db
  unfolding sessions
  sessions-Answers [] w safe = (w, refl, safe)
  sessions-Answers (l ∷ ls) w safe =
      let (w1, first, safe1) = session-Answers l w safe in
      let (w2, others, safe2) = sessions-Answers ls w1 safe1 in (w2, rw (first, others) refl, safe2)
