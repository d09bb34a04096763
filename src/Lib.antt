-- ===== src/Lib.antt =====
-- The TypeScript examples of this repository, and the specifications that they are tested against.
--
-- An example has a program under test, a FizzBee specification, and adapters in `fizztests/` that
-- the runner of `@fizzbee/mbt` drives: it sets up a run with `init`, calls an action of a role for
-- each step of the specification, compares what it returns (or the role's `getState`) with the
-- specification, and ends the run with `cleanup`.
--
-- Counter: examples/fizzbee-mbt-quickstart/typescript.
--   Counter/Defs     src/counter.ts, the interface as a record of operations
--   Counter/Mem      src/mem_counter.ts; children Refines and Bounds
--   Counter/Pg       src/pg_counter.ts; Database has the syntax of its statements and the server as
--                    a parameter, Table has what is assumed of a server, Laws, Refines, Fresh and
--                    Clients have what the class then does, also for several clients
--   Counter/Spec     specs/simple-counter/counter.fizz as a step function
--   Counter/Adapter  fizztests/: the role adapter, the registry; Model is the model adapter, on a
--                    heap of counter objects and a database, and its Sessions has runs one after
--                    the other; Equal compares the two counters
--   Counter/Runner   fizztests/counter_test.ts, the test program
--   Counter/Demo     src/main.ts; Shown and Fresh have what it prints, Fails what an error leads to
-- TodoApp: examples/todo-app.
--   TodoApp/Spec       spec/todo.fizz as a partial step function with results
--   TodoApp/Format     typescript/fizztests/todo_adapters.ts: the records, and the texts that are
--                      read and written
--   TodoApp/Actions    the actions of its role; Reading has those that return a record or a list
--   TodoApp/Lifecycle  its browser, pages and database
--   TodoApp/Runner     typescript/fizztests/todo_interfaces.ts and todo_test.ts: interface,
--                      registry and test program
--   TodoApp/Conforms   a page that does as the specification says, and runs of the actions on it;
--                      Sessions has runs one after the other, each from `init` to `cleanup`,
--                      and the whole test program
-- TodoMvc: examples/todomvc.
--   TodoMvc/Spec        spec/todomvc.fizz as a partial step function
--   TodoMvc/View        `TodoViewRoleAdapter` of fizztests/todomvc_adapters.ts
--   TodoMvc/Controller  `TodoControllerRoleAdapter`
--   TodoMvc/Lifecycle   `TodomvcModelAdapter`, and fizztests/playwright_env.ts
--   TodoMvc/Runner      fizztests/todomvc_interfaces.ts and todomvc_test.ts
--   TodoMvc/Conforms    a page that does as the specification says, and runs of the actions on it;
--                       Sessions has runs one after the other, each from `init` to `cleanup`,
--                       and the whole test program
-- Mbt has what the test programs use of `@fizzbee/mbt`: the registry's type, `runTests`, whose work
-- is a parameter, and how a process ends.
-- Js has the parts of the language that these use: white space, `trim`, `split`, `join`,
-- `includes`, `parseInt`, `toString`, and `sort` by a comparison of numbers. Browser has the
-- operations of `playwright`. Prelude has what all of them share. Modules named Tests hold runs,
-- and instances of the results.
--
-- How code becomes definitions. An async method is a function from a world to an outcome, a value
-- or an error's text, and a world (`Exec`); `await` is the bind of a do block, so an error ends the
-- method in the world where it was thrown, and `try` looks at the outcome. A class is a record of
-- its fields, and an optional field is an `Option`. Texts are lists of UTF-16 code units. A number
-- is an integer or `none`, which is NaN; no number here is a fraction. Counters are integers;
-- doubles are exact up to 2^53, and a server's INTEGER is bounded by 2^31 where it matters.
--
-- Parameters. `playwright`, `better-sqlite3`, `pg` and its server, and the type `Arg` are records
-- of operations on an unknown world, so that each result holds for every browser and server. A
-- result that depends on what a page shows has that as a hypothesis (`Renders`, `ShowsTodos`,
-- `IsAbsent`), or how the application answers (`IsTodoMvc`, `IsTodoPage`, `IsHost`: what a user does
-- on a page that shows a state leads to one that shows the specification's next state; applications
-- behind a browser made of functions meet them in the tests), and one on PostgreSQL assumes the
-- laws of `IsPostgres`, one for each kind of statement; a server made of lists meets them in the
-- tests. There is no fuel: all loops run over lists or counts.
--
-- Words. A row of the table `counters` is in range if its value lies between 0 and its maximum, and
-- its maximum is at most 2^31 - 2, so that a value raised by one is an INTEGER. A run is `init`, then
-- actions on the roles that `getRoles` lists (in TodoMvc each with `afterAction` and the view's
-- `getState` behind it), then `cleanup`; in TodoApp the actions are on the one role's page. The
-- titles of todomvc.fizz may be any texts here, where the file has a few.
--
-- Not modelled: how the runner explores a specification (runs are given as lists), the scripts that
-- start it, statements on a database that overlap (each is one step of the server), and the ports to
-- Java, Go and Rust.
pub mod Prelude
pub mod Js
pub mod Browser
pub mod Mbt
pub mod Counter
pub mod TodoApp
pub mod TodoMvc
