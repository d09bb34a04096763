-- ===== src/TodoApp/Conforms/Runs.antt =====
-- Runs of the actions in TodoApp/Actions on a conforming page, beside runs of todo.fizz.
use fizzbee_mbt_examples.Prelude.{ℕ, List, [], ◌∷◌, some, codes, ok, ◌≡◌, refl, sym, ap, ◌∙◌, map}
use fizzbee_mbt_examples.Browser.{Playwright, ArgType}
use fizzbee_mbt_examples.TodoApp.Spec.{
  State, Action, create_todo, update_todo, delete_todo, read_todo, list_todo, pin_todo, un_pin_todo,
  Result, step,
}
use fizzbee_mbt_examples.TodoApp.Spec.Invariant.{Reachable}
use mathlib.Core.Path.{subst}
use fizzbee_mbt_examples.TodoApp.Spec.Results.{
  Writes, step-nothing, read_todo-some, read_todo-same, list_todo-same, step-there,
}
use fizzbee_mbt_examples.TodoApp.Actions
use fizzbee_mbt_examples.TodoApp.Actions.{
  Reply, undefined, argument, get_todo_id, is_missing, hover_on_card, on_card, settle, safe_run,
  is_pin_patch, click_and_wait_for_list_dom_update, pin_and_wait_for_list_dom_update,
  action_create_todo, action_update_todo, action_delete_todo, action_pin_todo, action_un_pin_todo,
}
use fizzbee_mbt_examples.TodoApp.Actions.Reading.Observed.{
  observed_result, list_todo-observed, read_todo-observed,
}
use fizzbee_mbt_examples.TodoApp.Conforms.{IsTodoPage, HasId, Encodes, perform, run}
use fizzbee_mbt_examples.TodoApp.Conforms.Steps.{
  hovered-eq, create-eq, update-eq, delete-eq, pin-eq, un_pin-eq,
}

-- A run that todo.fizz allows from a state, with its results and where it ends.
pub data Run (PW : Playwright) (AT : ArgType)
    : State → List (Action × List AT.Arg) → List Result → State → Type 0 where
  done : {s : State} → Run PW AT s [] [] s
  more :
      {s t u : State} {a : Action} {args : List AT.Arg} {r : Result}
      {l : List (Action × List AT.Arg)} {rs : List Result}
      → step a s ≡ some (r, t)
      → Encodes PW AT a args
      → Run PW AT t l rs u
      → Run PW AT s ((a, args) ∷ l) (r ∷ rs) u

module _ (PW : Playwright) (AT : ArgType) (p : PW.Page) (Shows : State → PW.World → Type 0)
    (A : IsTodoPage PW p Shows) where
  -- What the registered function of an action comes to.
  abbrev Performs : Action → List AT.Arg → PW.World → Result → State → Type 0
  Performs a args w r t =
      (w' : PW.World) × (perform PW AT p a args w ≡ (ok (observed_result r), w')) × Shows t w'

  writes :
      (a : Action) (args : List AT.Arg) (w w' : PW.World) (s t : State) (r : Result)
      → Writes a
      → step a s ≡ some (r, t)
      → perform PW AT p a args w ≡ (ok undefined, w')
      → Shows t w'
      → Performs a args w r t
  writes a args w w' s t r h e acted k =
      (w', acted ∙ ap (λ x. (ok (observed_result x), w')) (sym (step-nothing a s h e)), k)

  read-Shows :
      (id : ℕ) (args : List AT.Arg) (s t : State) (r : Result) (w : PW.World)
      → Reachable s
      → Shows s w
      → step (read_todo id) s ≡ some (r, t)
      → HasId PW AT args id
      → Performs (read_todo id) args w r t
  read-Shows id args s t r w reach h e (a, there, same) =
      let (u, at) = read_todo-some id s e in
      let (w', shows, k) = A.reads s w id u h at in
      (
        w',
        read_todo-observed PW AT p w w' a args there s id same reach u r t at shows e,
        subst (λ x. Shows x w') (read_todo-same id s e) k,
      )

  list-Shows :
      (args : List AT.Arg) (s t : State) (r : Result) (w : PW.World)
      → Reachable s
      → Shows s w
      → step list_todo s ≡ some (r, t)
      → Performs list_todo args w r t
  list-Shows args s t r w reach h e =
      let (shown, shows, perm) = A.lists s w h in
      (
        w,
        list_todo-observed PW AT p w args s shown r t reach shows perm e,
        subst (λ x. Shows x w) (list_todo-same s e) h,
      )

  un_pin-Shows :
      (id : ℕ) (args : List AT.Arg) (s t : State) (r : Result) (w : PW.World)
      → Shows s w
      → step (un_pin_todo id) s ≡ some (r, t)
      → HasId PW AT args id
      → Performs (un_pin_todo id) args w r t
  unfolding action_un_pin_todo Actions.un_pin_todo safe_run
  un_pin-Shows id args s t r w h e (a, there, same) =
      let (u, at, live) = step-there (un_pin_todo id) s tt e in
      let g = A.un_pins s t r w id u h at e in
      let (w', k, eq) = un_pin-eq PW AT p u.pinned id g.hovered (Shows t) g.after in
      writes (un_pin_todo id) args w w' s t r tt e
        (rw (there, argument, same)
          (rw (hovered-eq PW AT p id w _ g) (ap (settle PW AT (some p) (codes "unpinTodo")) eq)))
        k

  perform-Shows :
      (a : Action) (args : List AT.Arg) (s t : State) (r : Result) (w : PW.World)
      → Reachable s
      → Shows s w
      → step a s ≡ some (r, t)
      → Encodes PW AT a args
      → Performs a args w r t
  perform-Shows (create_todo v) args s t r w reach h e c =
      let g = A.creates s t r w v h e in
      writes (create_todo v) args w _ s t r tt e (create-eq PW AT p v args w (Shows t) c g)
        g.after.counts.after
  perform-Shows (update_todo id v) args s t r w reach h e (c, d) =
      let g = A.updates s t r w id v h e in
      writes (update_todo id v) args w _ s t r tt e (update-eq PW AT p id v args w (Shows t) c d g)
        g.after.after.after.counts.after
  perform-Shows (delete_todo id) args s t r w reach h e c =
      let g = A.deletes s t r w id h e in
      writes (delete_todo id) args w _ s t r tt e (delete-eq PW AT p id args w (Shows t) c g)
        g.after.2.counts.after
  perform-Shows (read_todo id) args s t r w reach h e c = read-Shows id args s t r w reach h e c
  perform-Shows list_todo args s t r w reach h e c = list-Shows args s t r w reach h e
  perform-Shows (pin_todo id) args s t r w reach h e c =
      let g = A.pins s t r w id h e in
      writes (pin_todo id) args w _ s t r tt e (pin-eq PW AT p id args w (Shows t) c g)
        g.after.counts.after
  perform-Shows (un_pin_todo id) args s t r w reach h e c = un_pin-Shows id args s t r w h e c

  -- On a page that behaves as documented, from a state that todo.fizz reaches and that the page
  -- shows: for every run that the specification allows, with arguments that encode its choices,
  -- every action through the registry resolves, the replies are exactly the specification's results
  -- in their order, and the page shows the last state.
  pub run-replies :
      {l : List (Action × List AT.Arg)} {rs : List Result} {s u : State} (w : PW.World)
      → Reachable s
      → Shows s w
      → Run PW AT s l rs u
      → (w' : PW.World) × (run PW AT p l w ≡ (ok (map observed_result rs), w')) × Shows u w'
  unfolding run
  run-replies w reach h done = (w, refl, h)
  run-replies w reach h (more {s} {t} {u} {a} {args} {r} {l} {rs} e c rest) =
      let (w1, acted, k) = perform-Shows a args s t r w reach h e c in
      let (w2, others, last) = run-replies w1 (Reachable.next a reach e) k rest in
      (w2, rw (acted, others) refl, last)
