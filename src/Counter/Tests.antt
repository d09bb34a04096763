-- ===== src/Counter/Tests.antt =====
-- Runs of the counters on inputs, and the theorems about them at an instance.
mod Server
mod Demo
use mathlib.Core.Path.{subst}
use fizzbee_mbt_examples.Prelude.{
  ℕ, ◌-◌, ◌^◌, List, [], ◌∷◌, ◌++◌, Option, none, some, some_injective, Bool, true, false, Text,
  codes, text_eq, ok, throw, Outcome, ◌≡◌, refl, inl, inr, arith, map, ◌==◌, if◌then◌else◌,
}
use fizzbee_mbt_examples.Prelude.Int.{ℤ, pos, negsuc, ◌+ℤ◌, ◌-ℤ◌, ◌≤ℤ◌, min_ℤ, max_ℤ}
use fizzbee_mbt_examples.Counter.Spec
use fizzbee_mbt_examples.Counter.Spec.{Action, trace, max_value}
use fizzbee_mbt_examples.Counter.Spec.Range.{IsWithin, trace-IsWithin}
use fizzbee_mbt_examples.Counter.Mem.{mem_counter}
use fizzbee_mbt_examples.Counter.Mem
use fizzbee_mbt_examples.Counter.Mem.Refines.{
  Matches, mem_counter-Simulates, create-Matches, perform_all-Matches,
}
use fizzbee_mbt_examples.Counter.Mem.Bounds.{IsBounded, perform_all-IsBounded}
use fizzbee_mbt_examples.Counter.Pg.{PgCounter, create, update, get, delete_counter}
use fizzbee_mbt_examples.Counter.Pg.Database.{Row}
use fizzbee_mbt_examples.Counter.Pg.Table.{insert_row, map_rows, drop_rows, IsReady, Ran}
use fizzbee_mbt_examples.Counter.Pg.Laws.{
  IsInRange, IsSafe, bump, update-Ran, update-IsSafe, found, get-found, delete_counter-Ran,
}
use fizzbee_mbt_examples.Counter.Pg.Refines.{row_of, Stores}
use fizzbee_mbt_examples.Counter.Pg.Fresh.{create_existing}
use fizzbee_mbt_examples.Counter.Pg.Clients.{
  Call, increments, decrements, run_calls, actions_on, run_calls-Stores,
}
use fizzbee_mbt_examples.Counter.Adapter.{number, undefined, action_inc, action_get, action_dec}
use fizzbee_mbt_examples.Counter.Adapter.Refines.{reply, perform_all}
use fizzbee_mbt_examples.Counter.Adapter.Model.{
  World, counter_model_adapter, test_counter, init, cleanup,
}
use fizzbee_mbt_examples.Counter.Adapter.Model.Cleanup.{cleanup-closes}
use fizzbee_mbt_examples.Counter.Adapter.Model.Runs.{IsFresh, init-IsFresh}
use fizzbee_mbt_examples.Counter.Adapter.Model.Sessions.{sessions, answers, sessions-Answers}
use fizzbee_mbt_examples.Counter.Tests.Server.{Store, as_row, rows, server, view, server-IsPostgres}

abbrev sample : List (Action × List (Unit {0}))
sample = (Spec.inc, []) ∷ (Spec.inc, []) ∷ (Spec.dec, []) ∷ (Spec.get, []) ∷ []

mem_run :
    (perform_all (Unit {0}) mem_counter sample (Mem.create (pos 3))).0
    ≡ ok undefined ∷ ok undefined ∷ ok undefined ∷ ok (number (pos 1)) ∷ []
unfolding perform_all action_inc action_get action_dec Mem.inc Mem.get Mem.dec
mem_run = refl

perform_all-Matches_example :
    ((perform_all (Unit {0}) mem_counter sample (Mem.create (pos 3))).0
      ≡ map reply (trace (pos 3) (map (λ x. x.0) sample) (pos 0)).0)
    × Matches
        (pos 3)
        (trace (pos 3) (map (λ x. x.0) sample) (pos 0)).1
        (perform_all (Unit {0}) mem_counter sample (Mem.create (pos 3))).1
perform_all-Matches_example = perform_all-Matches (Unit {0}) (pos 3) sample (omega arith)

perform_all-IsBounded_example :
    IsBounded (negsuc 1) (perform_all (Unit {0}) mem_counter sample (Mem.create (negsuc 1))).1
perform_all-IsBounded_example = perform_all-IsBounded (Unit {0}) (negsuc 1) sample

trace-IsWithin_example : IsWithin (pos 3) (trace (pos 3) (Spec.inc ∷ Spec.dec ∷ []) (pos 0)).1
trace-IsWithin_example =
    trace-IsWithin (pos 3) (Spec.inc ∷ Spec.dec ∷ []) (pos 0) (omega arith) (omega arith)

-- A database in which an earlier run left the test counter at 2.
abbrev used : Store
used = record {
  cells = λ k. if text_eq k test_counter then some (pos 2, pos 3) else none;
  created = true;
  opened = λ q. q == 0;
  next = 1;
}

used_row-IsInRange :
    (k : Text) (b : Bool) (r : Row)
    → as_row k (if b then some (pos 2, pos 3) else none) ≡ some r
    → IsInRange r
used_row-IsInRange k true r h = subst IsInRange (some_injective h) (omega arith)
used_row-IsInRange k false r h = absurd (cc h)

used-IsSafe : IsSafe view used
used-IsSafe k r h = used_row-IsInRange k (text_eq k test_counter) r h

abbrev counter : PgCounter server
counter = record { pool = 0; name = test_counter; max = pos 3 }

abbrev other : PgCounter server
other = record { pool = 0; name = codes "other"; max = pos 3 }

abbrev world : World server
world = record { self = counter_model_adapter server false; heap = []; db = used }

init-IsFresh_example : IsFresh (Unit {0}) server view server-IsPostgres (init server world)
init-IsFresh_example = init-IsFresh (Unit {0}) server view server-IsPostgres world used-IsSafe

update-Ran_example :
    Ran view used
      (update server counter (pos 1) used)
      tt
      (map_rows (bump test_counter (pos 1)) (rows used))
update-Ran_example =
    update-Ran server view server-IsPostgres counter (pos 1) used (inl refl) (refl, refl)
      used-IsSafe

update-IsSafe_example : IsSafe view (update server counter (negsuc 0) used).1
update-IsSafe_example =
    update-IsSafe server view server-IsPostgres counter (negsuc 0) used (inr refl) (refl, refl)
      used-IsSafe

get-found_example : get server other used ≡ (found other.name (view.row used other.name), used)
get-found_example = get-found server view server-IsPostgres other used (refl, refl)

delete_counter-Ran_example :
    Ran view used
      (delete_counter server counter used)
      tt
      (drop_rows (λ r. text_eq r.name test_counter) (rows used))
delete_counter-Ran_example =
    delete_counter-Ran server view server-IsPostgres counter used (refl, refl)

create_existing_example :
    ((create server 0 test_counter (pos 9) used).0
      ≡ ok (record { pool = 0; name = test_counter; max = pos 9 }))
    × Stores server view server-IsPostgres
        (record { pool = 0; name = test_counter; max = pos 9 })
        (pos 3)
        (pos 2)
        (create server 0 test_counter (pos 9) used).1
create_existing_example =
    create_existing server view server-IsPostgres 0 test_counter (pos 9) used (omega arith)
      (omega arith) (refl, refl) used-IsSafe (pos 2) (pos 3) refl

-- Another client's object for the same row, and a counter whose row is not there.
abbrev calls : List (Call server)
calls =
    increments counter
    ∷ decrements other
    ∷ increments (record counter { max = pos 9 })
    ∷ decrements counter
    ∷ []

used-Stores : Stores server view server-IsPostgres counter (pos 3) (pos 2) used
used-Stores = record { ready = (refl, refl); safe = used-IsSafe; row = refl }

run_calls-Stores_example :
    ((run_calls server calls used).0 ≡ ok tt)
    × Stores server view server-IsPostgres counter
        (pos 3)
        (trace (pos 3) (actions_on server test_counter calls) (pos 2)).1
        (run_calls server calls used).1
run_calls-Stores_example =
    run_calls-Stores server view server-IsPostgres counter (pos 3) calls (pos 2) used
      (refl, (refl, (refl, (refl, tt)))) used-Stores

-- A run that is under way, on the pool 0.
abbrev running : World server
running = record world { self = record (counter_model_adapter server false) { pool = some 0 } }

cleanup-closes_example :
    ((cleanup server running).0 ≡ ok tt)
    × (view.row (cleanup server running).1.db test_counter ≡ none)
    × ((k : Text)
        → view.row (cleanup server running).1.db k
          ≡ drop_rows (λ r. text_eq r.name test_counter) (view.row used) k)
    × (view.is_open (cleanup server running).1.db 0 ≡ false)
    × ((cleanup server running).1.self ≡ running.self)
    × ((cleanup server running).1.heap ≡ running.heap)
cleanup-closes_example =
    cleanup-closes server view server-IsPostgres running 0 refl refl (refl, refl) used-IsSafe

-- Two runs.
abbrev two_runs : List (List (Spec.Action × List (Unit {0})))
two_runs = ((Spec.inc, []) ∷ (Spec.get, []) ∷ []) ∷ ((Spec.dec, []) ∷ (Spec.get, []) ∷ []) ∷ []

sessions-Answers_example :
    (w' : World server) × (sessions (Unit {0}) server two_runs world
      ≡ (ok (map (answers (Unit {0}) server) two_runs), w'))
    × IsSafe view w'.db
sessions-Answers_example =
    sessions-Answers (Unit {0}) server view server-IsPostgres two_runs world used-IsSafe

-- What the specification answers to them.
two_answers :
    map (answers (Unit {0}) server) two_runs
    ≡ (ok undefined ∷ ok (number (pos 1)) ∷ []) ∷ (ok undefined ∷ ok (number (pos 0)) ∷ []) ∷ []
unfolding Spec.trace Spec.step
two_answers = refl
