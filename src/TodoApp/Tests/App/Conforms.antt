-- ===== src/TodoApp/Tests/App/Conforms.antt =====
-- The application behaves as documented, and a run on it.
use mathlib.Core.List.Perm
use mathlib.Core.Path.{subst}
use fizzbee_mbt_examples.Prelude.{
  ℕ, List, [], ◌∷◌, ◌++◌, some, Bool, true, false, not, Text, codes, ok, ◌≡◌, refl, sym, ap, ◌∙◌,
  map, Bool-cases, inl, inr, bit,
}
use fizzbee_mbt_examples.Js.Strings.{includes}
use fizzbee_mbt_examples.Browser.{button, by_role}
use fizzbee_mbt_examples.TodoApp.Spec.{
  Item, State, Action, create_todo, update_todo, delete_todo, read_todo, list_todo, pin_todo,
  un_pin_todo, Result, nothing, one, many, step, todo_at, init,
}
use fizzbee_mbt_examples.TodoApp.Spec.Invariant.{
  HasValue, Reachable, Reachable-IsValid, todo_at-id, todo_at-value,
}
use fizzbee_mbt_examples.TodoApp.Spec.Results.{step-there}
use fizzbee_mbt_examples.TodoApp.Format.{title_prefix}
use fizzbee_mbt_examples.TodoApp.Actions.Reading.Lists.{ShowsTodos}
use fizzbee_mbt_examples.TodoApp.Actions.Reading.Observed.{
  live, ShowsTodo, OpensTodo, observed_result,
}
use fizzbee_mbt_examples.TodoApp.Conforms.{IsTodoPage, element, id_text, run}
use fizzbee_mbt_examples.TodoApp.Conforms.Runs.{Run, run-replies}
use fizzbee_mbt_examples.TodoApp.Tests.App.{
  App, act, id_at, class_if, app_page, Value, number, words, values,
}
use fizzbee_mbt_examples.TodoApp.Tests.App.Elements.{
  Shows, ids, title-IsTrimmed, does_update, still, pins_on, may_un_pin, card_counted, hovers,
  listed,
}

bi_class :
    (b : Bool)
    → (cls : Text) × (class_if b (codes "bi-pin-fill") ≡ some cls)
      × (includes cls (codes "bi-pin-fill") ≡ b)
bi_class true = (codes "bi-pin-fill", refl, refl)
bi_class false = ([], refl, refl)

-- A click on the card of a todo that is not deleted opens a modal that shows it.
opens :
    (s : State) (w : App) (id : ℕ) (u : Item)
    → Shows s w
    → todo_at s id ≡ some u
    → u.id ≡ id
    → HasValue u
    → u.deleted ≡ false
    → OpensTodo app_page tt u w (record w { current = id_at (codes "todo-card-" ++ id_text u.id) })
opens s w id u h at same value d =
    let there = ap (todo_at w.state) ((ids u.id).0 ∙ same) ∙ ap (λ x. todo_at x id) h.state ∙ at in
    let (cls, classed, marked) = bi_class u.pinned in
    record {
      cards = 0;
      clicked = record w { current = id_at (codes "todo-card-" ++ id_text u.id) };
      opened = record w { current = id_at (codes "todo-card-" ++ id_text u.id) };
      title = title_prefix ++ u.value;
      icons = 0;
      cls = cls;
      counted = rw (there, d) refl;
      visible = refl;
      clicks = refl;
      waits = refl;
      titled = rw there refl;
      reads = title-IsTrimmed u.value value;
      has_icons = refl;
      classed = rw there (
          ap (λ c. (ok c, record w { current = id_at (codes "todo-card-" ++ id_text u.id) }))
            classed);
      marked = marked;
      closes = refl;
    }

reads_todo :
    (s : State) (w : App) (id : ℕ) (u : Item)
    → Shows s w
    → todo_at s id ≡ some u
    → (w' : App) × ShowsTodo app_page tt u w w' × Shows s w'
reads_todo s w id u h at =
    let v = Reachable-IsValid h.reached in
    let same = todo_at-id s id u v at in
    elim (Bool-cases u.deleted) [
      | inl d ↦ (
        w,
        inl (
          d,
          refl,
          inl (
              subst (λ i. app_page.count tt (element (codes "todo-card-") i) w ≡ (ok 0, w))
                (sym same) (card_counted s w h id u at ∙ ap (λ b. (ok (bit (not b)), w)) d)),
        ),
        h,
      )
      | inr d ↦ (
        record w { current = id_at (codes "todo-card-" ++ id_text u.id) },
        inr (d, opens s w id u h at same (todo_at-value s id u v at) d),
        still s w w.typed _ h,
      )
    ]

pub conforms : IsTodoPage app_page tt Shows
conforms = record {
  lists = λ s w h. (
    live s.todos,
    subst (λ x. ShowsTodos app_page tt w (live x.todos)) h.state
        (listed w (subst Reachable (sym h.state) h.reached)),
    Perm.refl _,
  );
  reads = reads_todo;
  creates = λ s t r w v h e. record {
    titled = record w { typed = v };
    described = record w { typed = v };
    fills_title = refl;
    fills_text = refl;
    after =
        does_update (by_role button (codes "Add")) (create_todo v) (record w { typed = v }) s t r
          (still s w v w.current h) e refl;
  };
  updates = λ s t r w id v h e.
      let (u, at, d) = step-there (update_todo id v) s tt e in
      hovers s w h id u at _ d (record {
        opened = record w { current = id_at (codes "edit-todo-" ++ id_text id) };
        ready = record w { current = id_at (codes "edit-todo-" ++ id_text id) };
        opens = refl;
        waits = refl;
        after = record {
          titled = record w { typed = v; current = id_at (codes "edit-todo-" ++ id_text id) };
          described = record w { typed = v; current = id_at (codes "edit-todo-" ++ id_text id) };
          fills_title = refl;
          fills_text = refl;
          after =
              does_update (by_role button (codes "Update")) (update_todo id v) _ s t r
                (still s w v (id_at (codes "edit-todo-" ++ id_text id)) h) e
                (ap
                  (λ i.
                    act (update_todo i v)
                      (record w { typed = v; current = id_at (codes "edit-todo-" ++ id_text id) }))
                  (ids id).1);
        };
      });
  deletes = λ s t r w id h e.
      let (u, at, d) = step-there (delete_todo id) s tt e in
      hovers s w h id u at _ d (
        w,
        refl,
        does_update (element (codes "delete-todo-") id) (delete_todo id) w s t r h e
            (ap (λ i. act (delete_todo i) w) (ids id).2),
      );
  pins = λ s t r w id h e.
      let (u, at, d) = step-there (pin_todo id) s tt e in
      hovers s w h id u at _ d (pins_on s t r w id h e);
  un_pins = λ s t r w id u h at e.
      let (u', at', d) = step-there (un_pin_todo id) s tt e in
      hovers s w h id u' at' _ d (may_un_pin u.pinned s t r w id u h at refl e);
}

abbrev item : Bool → Item
item b = record { id = 1; value = codes "A"; deleted = false; pinned = b }

abbrev state : List Item → ℕ → State
state ts n = record { todos = ts; next_id = n }

-- A todo is created, pinned, read, listed, deleted and read again.
abbrev pub allowed : List (Action × List Value)
allowed =
    (create_todo (codes "A"), words (codes "A") ∷ [])
    ∷ (pin_todo 1, number 1 ∷ [])
    ∷ (read_todo 1, number 1 ∷ [])
    ∷ (list_todo, [])
    ∷ (delete_todo 1, number 1 ∷ [])
    ∷ (read_todo 1, number 1 ∷ [])
    ∷ []

abbrev last : State
last = state (record (item true) { deleted = true } ∷ []) 2

abbrev pub results : List Result
results = nothing ∷ nothing ∷ one (item true) ∷ many (item true ∷ []) ∷ nothing ∷ nothing ∷ []

pub allowed-Run : Run app_page values init allowed results last
unfolding step
allowed-Run =
    Run.more {t = state (item false ∷ []) 2} refl (words (codes "A"), refl, refl)
      (Run.more {t = state (item true ∷ []) 2} refl (number 1, refl, refl)
        (Run.more {t = state (item true ∷ []) 2} refl (number 1, refl, refl)
          (Run.more {t = state (item true ∷ []) 2} refl tt (
            Run.more {t = last} refl (number 1, refl, refl)
              (Run.more {t = last} refl (number 1, refl, refl) Run.done)))))

abbrev pub opened : App
opened = record { state = init; typed = []; current = 0; page_open = true; running = true }

run-replies_example :
    (w' : App) × (run app_page values tt allowed opened ≡ (ok (map observed_result results), w'))
    × Shows last w'
run-replies_example =
    run-replies app_page values tt Shows conforms opened Reachable.start
      (record { state = refl; reached = Reachable.start; shown = refl }) allowed-Run
