-- ===== src/Counter/Pg/Clients.antt =====
-- Several clients of one database: their calls of `inc` and `dec`, in the order in which the server
-- runs the statements. Each call is one statement, so every interleaving of clients is such a list.
use fizzbee_mbt_examples.Prelude.{
  List, [], ◌∷◌, some, true, false, Bool-cases, inl, inr, Text, text_eq, text_eq_iff, Exec, Outcome,
  ok, pure, ◌>>◌, continue, ◌≡◌, refl, ap, ◌∙◌, All, if◌then◌else◌,
}
use fizzbee_mbt_examples.Prelude.Int.{ℤ, pos, negsuc}
use fizzbee_mbt_examples.Counter.Spec
use fizzbee_mbt_examples.Counter.Spec.{Action, trace}
use fizzbee_mbt_examples.Counter.Pg.Database.{Row, Postgres}
use fizzbee_mbt_examples.Counter.Pg.Table.{map_row, View, IsReady, IsPostgres}
use fizzbee_mbt_examples.Counter.Pg.{PgCounter, inc, dec, update}
use fizzbee_mbt_examples.Counter.Pg.Laws.{IsInRange, IsStep, bump, update-Ran, update-IsSafe}
use fizzbee_mbt_examples.Counter.Pg.Refines.{row_of, Stores, bump-inc, bump-dec}

continue-ok :
    {S A B : Type 0} (out : Outcome A × S) (k : A → Exec S B) {a : A}
    → out.0 ≡ ok a
    → continue out k ≡ k a out.1
continue-ok out k h = rw h

module _ (P : Postgres) where
  -- A call of a client on its own `PGCounter` object.
  pub data Call : Type 0 where
    increments : PgCounter P → Call
    decrements : PgCounter P → Call

  abbrev pub run_call : Call → Exec P.Db (Unit {0})
  run_call (increments c) = inc P c
  run_call (decrements c) = dec P c

  unfoldable pub run_calls : List Call → Exec P.Db (Unit {0})
  run_calls [] = pure tt
  run_calls (c ∷ cs) = do run_call c; run_calls cs

  abbrev pub target : Call → PgCounter P
  target (increments c) = c
  target (decrements c) = c

  abbrev pub delta : Call → ℤ
  delta (increments c) = pos 1
  delta (decrements c) = negsuc 0

  abbrev pub action : Call → Action
  action (increments c) = Spec.inc
  action (decrements c) = Spec.dec

  -- The actions of the calls on counters of one name.
  unfoldable pub actions_on : Text → List Call → List Action
  actions_on n [] = []
  actions_on n (c ∷ cs) =
      if text_eq n (target c).name then action c ∷ actions_on n cs else actions_on n cs

  delta-IsStep : (c : Call) → IsStep (delta c)
  delta-IsStep (increments c) = inl refl
  delta-IsStep (decrements c) = inr refl

  run_call-eq : (c : Call) (db : P.Db) → run_call c db ≡ update P (target c) (delta c) db
  unfolding inc dec
  run_call-eq (increments c) db = refl
  run_call-eq (decrements c) db = refl

  bump-own :
      (c : Call) (r : Row)
      → IsInRange r
      → r.name ≡ (target c).name
      → bump (target c).name (delta c) r
        ≡ record r { value = (Spec.step r.max (action c) r.value).1 }
  bump-own (increments c) r h e = bump-inc c.name r h e
  bump-own (decrements c) r h e = bump-dec c.name r h e

  bump-other : (n : Text) (d : ℤ) (r : Row) → text_eq r.name n ≡ false → bump n d r ≡ r
  unfolding bump
  bump-other n d r h = rw h

module _ (P : Postgres) (V : View P) (L : IsPostgres P V) where
  -- The pools of all calls are open.
  abbrev pub AreOpen : List (Call P) → P.Db → Type 0
  AreOpen cs db = All (λ c. V.is_open db (target P c).pool ≡ true) cs

  AreOpen-keep :
      (cs : List (Call P)) (db db' : P.Db)
      → ((q : P.Pool) → V.is_open db' q ≡ V.is_open db q)
      → AreOpen cs db
      → AreOpen cs db'
  AreOpen-keep [] db db' k h = tt
  AreOpen-keep (c ∷ cs) db db' k (h, hs) = (k _ ∙ h, AreOpen-keep cs db db' k hs)

  module _ (o : PgCounter P) (max : ℤ) where
    -- The value after one call, on this counter or on another.
    abbrev value_after : Call P → ℤ → ℤ
    value_after c v =
        if text_eq o.name (target P c).name then (Spec.step max (action P c) v).1 else v

    bump-after :
        (c : Call P) (v : ℤ)
        → IsInRange (row_of o.name v max)
        → bump (target P c).name (delta P c) (row_of o.name v max)
          ≡ row_of o.name (value_after c v) max
    bump-after c v h = elim (Bool-cases (text_eq o.name (target P c).name)) [
      | inl e ↦ bump-own P c _ h ((text_eq_iff o.name (target P c).name).0 e) ∙ rw e
      | inr e ↦ bump-other P (target P c).name (delta P c) _ e ∙ rw e
    ]

    run_call-Stores :
        (c : Call P) (v : ℤ) (db : P.Db)
        → V.is_open db (target P c).pool ≡ true
        → Stores P V L o max v db
        → ((run_call P c db).0 ≡ ok tt)
          × ((q : P.Pool) → V.is_open (run_call P c db).1 q ≡ V.is_open db q)
          × Stores P V L o max (value_after c v) (run_call P c db).1
    run_call-Stores c v db h s =
        let ready : IsReady V db (target P c).pool = (h, s.ready.1) in
        let ran = update-Ran P V L (target P c) (delta P c) db (delta-IsStep P c) ready s.safe in
        rw (run_call-eq P c db) (
          ran.answered,
          ran.pools,
          record {
            ready = (ran.pools o.pool ∙ s.ready.0, ran.table);
            safe = update-IsSafe P V L (target P c) (delta P c) db (delta-IsStep P c) ready s.safe;
            row =
                ran.stored o.name
                ∙ ap (map_row (bump (target P c).name (delta P c))) s.row
                ∙ ap some (bump-after c v (s.safe o.name _ s.row));
          },
        )

    trace-after :
        (c : Call P) (cs : List (Call P)) (v : ℤ)
        → (trace max (actions_on P o.name (c ∷ cs)) v).1
          ≡ (trace max (actions_on P o.name cs) (value_after c v)).1
    unfolding trace actions_on
    trace-after c cs v = elim (Bool-cases (text_eq o.name (target P c).name)) [
      | inl e ↦ rw e
      | inr e ↦ rw e
    ]

    run_calls-next :
        (c : Call P) (cs : List (Call P)) (db : P.Db)
        → (run_call P c db).0 ≡ ok tt
        → run_calls P (c ∷ cs) db ≡ run_calls P cs (run_call P c db).1
    unfolding run_calls
    run_calls-next c cs db h = continue-ok (run_call P c db) _ h

    -- Any list of calls of `inc` and `dec`, on any counters and through any pools that are open,
    -- where the counter's row holds a value and a maximum, the counter's own pool is open and every
    -- row is in range: all calls resolve, and the counter's row then holds the value to which its
    -- own calls, in their order, lead in counter.fizz, with the old maximum; every row is in range.
    pub run_calls-Stores :
        (cs : List (Call P)) (v : ℤ) (db : P.Db)
        → AreOpen cs db
        → Stores P V L o max v db
        → ((run_calls P cs db).0 ≡ ok tt)
          × Stores P V L o max (trace max (actions_on P o.name cs) v).1 (run_calls P cs db).1
    unfolding trace
    run_calls-Stores [] v db h s = unfold run_calls in unfold actions_on in (refl, s)
    run_calls-Stores (c ∷ cs) v db (h, hs) s =
        let (done, pools, now) = run_call-Stores c v db h s in
        let rest =
          run_calls-Stores cs (value_after c v) (run_call P c db).1 (AreOpen-keep cs db _ pools hs)
            now in
        rw (run_calls-next c cs db done, trace-after c cs v) rest
