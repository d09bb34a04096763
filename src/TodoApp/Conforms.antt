-- ===== src/TodoApp/Conforms.antt =====
-- A page that behaves as todo.fizz demands, and a run of the adapter on it: the runner's steps, each
-- an action through the registry.
pub mod Steps
pub mod Runs
pub mod Sessions
use mathlib.Core.List.{Perm}
use fizzbee_mbt_examples.Prelude.{
  ℕ, suc, List, [], ◌∷◌, ◌++◌, Option, none, some, Bool, true, false, Text, codes, Exec, Outcome,
  ok, throw, raise, pure, continue, ◌>>=◌, ◌≡◌, get_elem?, text_eq, if◌then◌else◌,
}
use fizzbee_mbt_examples.Prelude.Int.{pos}
use fizzbee_mbt_examples.Js.Strings.{includes}
use fizzbee_mbt_examples.Js.Numbers.{to_string}
use fizzbee_mbt_examples.Browser.{
  AriaRole, textbox, button, Locator, by_role, by_test_id, css, Response, Playwright, ArgType,
}
use fizzbee_mbt_examples.Mbt.{registered}
use fizzbee_mbt_examples.TodoApp.Spec
use fizzbee_mbt_examples.TodoApp.Spec.{
  Item, State, Action, create_todo, update_todo, delete_todo, read_todo, list_todo, pin_todo,
  un_pin_todo, Result, step, todo_at,
}
use fizzbee_mbt_examples.TodoApp.Actions.{Reply, get_todo_id}
use fizzbee_mbt_examples.TodoApp.Actions.Reading.Lists.{Todo, ShowsTodos}
use fizzbee_mbt_examples.TodoApp.Actions.Reading.Observed.{live, ShowsTodo}
use fizzbee_mbt_examples.TodoApp.Runner.{TodoAppRole, action_registry, todo_app_role}

-- The elements of the page.
abbrev pub id_text : ℕ → Text
id_text id = to_string (some (pos id))

abbrev pub element : Text → ℕ → Locator
element name id = by_test_id (name ++ id_text id)

abbrev pub title_box : Locator
title_box = by_role textbox (codes "Take a note...")

abbrev pub text_box : Locator
text_box = by_role textbox (codes "Content...")

abbrev pub update_counter : Text
update_counter = codes "todoUpdateCounter"

-- A response to the request that pins a todo.
pub record Pinned (id : ℕ) (r : Response) : Type 0 where
  pub to_pin : includes r.url (codes "/todos/" ++ (id_text id ++ codes "/pin")) ≡ true
  pub patched : text_eq r.method (codes "PATCH") ≡ true
  pub is_ok : r.is_ok ≡ true

module _ (PW : Playwright) (p : PW.Page) where
  -- The list's counter of updates is read, and a click, that leads to `clicked`, changes it.
  pub record Counts (w clicked : PW.World) (After : PW.World → Type 0) : Type 0 where
    pub before : Option Text
    pub updated : PW.World
    pub counter : PW.text_content p (css (codes "#todoUpdateCounter")) w ≡ (ok before, w)
    pub changes : PW.wait_for_text_change p update_counter before clicked ≡ (ok tt, updated)
    pub after : After updated

  pub record Updates (btn : Locator) (w : PW.World) (After : PW.World → Type 0) : Type 0 where
    pub clicked : PW.World
    pub clicks : PW.click p btn w ≡ (ok tt, clicked)
    pub counts : Counts w clicked After

  -- The card of a todo is there and can be hovered on.
  pub record Hovers (id : ℕ) (w : PW.World) (After : PW.World → Type 0) : Type 0 where
    pub cards : ℕ
    pub hovered : PW.World
    pub counted : PW.count p (element (codes "todo-card-") id) w ≡ (ok (suc cards), w)
    pub visible : PW.is_visible p (element (codes "todo-card-") id) w ≡ (ok true, w)
    pub hovers : PW.hover p (element (codes "todo-card-") id) w ≡ (ok tt, hovered)
    pub after : After hovered

  -- Both boxes are filled in for a value.
  pub record Fills (v : Text) (w : PW.World) (After : PW.World → Type 0) : Type 0 where
    pub titled : PW.World
    pub described : PW.World
    pub fills_title : PW.fill p title_box (codes "Sample Title " ++ v) w ≡ (ok tt, titled)
    pub fills_text : PW.fill p text_box (codes "Some Description " ++ v) titled ≡ (ok tt, described)
    pub after : After described

  pub record OpensForm (id : ℕ) (w : PW.World) (After : PW.World → Type 0) : Type 0 where
    pub opened : PW.World
    pub ready : PW.World
    pub opens : PW.click p (element (codes "edit-todo-") id) w ≡ (ok tt, opened)
    pub waits : PW.wait_for p (by_role button (codes "Update")) opened ≡ (ok tt, ready)
    pub after : After ready

  -- A click on the button to pin sends a request and gets a response that pins.
  pub record Pins (id : ℕ) (w : PW.World) (After : PW.World → Type 0) : Type 0 where
    pub buttons : ℕ
    pub response : Response
    pub clicked : PW.World
    pub counted : PW.count p (element (codes "pin-todo-") id) w ≡ (ok (suc buttons), w)
    pub pinned : Pinned id response
    pub responds :
        (f : Response → Bool)
        → f response ≡ true
        → PW.click_for_response p f 5000 (element (codes "pin-todo-") id) w ≡ (ok response, clicked)
    pub counts : Counts w clicked After

  -- The button to take a pin off is there for a pinned todo only.
  pub record UnPins (id : ℕ) (w : PW.World) (After : PW.World → Type 0) : Type 0 where
    pub buttons : ℕ
    pub counted : PW.count p (element (codes "unpin-todo-") id) w ≡ (ok (suc buttons), w)
    pub updates : Updates (element (codes "unpin-todo-") id) w After

  abbrev pub MayUnPin : Bool → ℕ → PW.World → (PW.World → Type 0) → Type 0
  MayUnPin true id w After = UnPins id w After
  MayUnPin false id w After =
      (PW.count p (element (codes "unpin-todo-") id) w ≡ (ok 0, w)) × After w

  -- The documented behaviour of the application: `Shows` relates a state of the specification to a
  -- world whose page shows it, and what a user does on the page leads on as the specification says.
  pub record IsTodoPage (Shows : State → PW.World → Type 0) : Type 0 where
    pub lists :
        (s : State) (w : PW.World)
        → Shows s w
        → (shown : List Todo) × ShowsTodos PW p w shown × Perm shown (live s.todos)
    pub reads :
        (s : State) (w : PW.World) (id : ℕ) (u : Item)
        → Shows s w
        → todo_at s id ≡ some u
        → (w' : PW.World) × ShowsTodo PW p u w w' × Shows s w'
    pub creates :
        (s t : State) (r : Result) (w : PW.World) (v : Text)
        → Shows s w
        → step (create_todo v) s ≡ some (r, t)
        → Fills v w (λ w'. Updates (by_role button (codes "Add")) w' (Shows t))
    pub updates :
        (s t : State) (r : Result) (w : PW.World) (id : ℕ) (v : Text)
        → Shows s w
        → step (update_todo id v) s ≡ some (r, t)
        → Hovers id w (λ w1.
          OpensForm id w1
            (λ w2. Fills v w2 (λ w3. Updates (by_role button (codes "Update")) w3 (Shows t))))
    pub deletes :
        (s t : State) (r : Result) (w : PW.World) (id : ℕ)
        → Shows s w
        → step (delete_todo id) s ≡ some (r, t)
        → Hovers id w (λ w1.
          (asked : PW.World) × (PW.accept_next_dialog p w1 ≡ (ok tt, asked))
          × Updates (element (codes "delete-todo-") id) asked (Shows t))
    pub pins :
        (s t : State) (r : Result) (w : PW.World) (id : ℕ)
        → Shows s w
        → step (pin_todo id) s ≡ some (r, t)
        → Hovers id w (λ w1. Pins id w1 (Shows t))
    pub un_pins :
        (s t : State) (r : Result) (w : PW.World) (id : ℕ) (u : Item)
        → Shows s w
        → todo_at s id ≡ some u
        → step (un_pin_todo id) s ≡ some (r, t)
        → Hovers id w (λ w1. MayUnPin u.pinned id w1 (Shows t))

abbrev pub action_name : Action → Text
action_name (create_todo v) = codes "CreateTodo"
action_name (update_todo id v) = codes "UpdateTodo"
action_name (delete_todo id) = codes "DeleteTodo"
action_name (read_todo id) = codes "ReadTodo"
action_name list_todo = codes "ListTodo"
action_name (pin_todo id) = codes "PinTodo"
action_name (un_pin_todo id) = codes "UnPinTodo"

module _ (PW : Playwright) (AT : ArgType) where
  abbrev pub HasText : List AT.Arg → ℕ → Text → Type 0
  HasText args i t = (a : AT.Arg) × (get_elem? args i ≡ some a) × (AT.to_text a ≡ t)

  -- The first argument is the id, as a number or as its text.
  abbrev pub HasId : List AT.Arg → ℕ → Type 0
  HasId args id = (a : AT.Arg) × (get_elem? args 0 ≡ some a) × (get_todo_id PW AT a ≡ some (pos id))

  -- The arguments that the runner passes for the choices of an action.
  abbrev pub Encodes : Action → List AT.Arg → Type 0
  Encodes (create_todo v) args = HasText args 0 v
  Encodes (update_todo id v) args = HasId args id × HasText args 1 v
  Encodes (delete_todo id) args = HasId args id
  Encodes (read_todo id) args = HasId args id
  Encodes list_todo args = Unit
  Encodes (pin_todo id) args = HasId args id
  Encodes (un_pin_todo id) args = HasId args id

  module _ (p : PW.Page) where
    -- The registered function of an action, on the role that holds the page.
    abbrev pub perform : Action → List AT.Arg → Exec PW.World Reply
    perform a args =
        elim (registered (action_registry PW.World AT.Arg) (codes "TodoApp") (action_name a)) [
          | none ↦ raise (codes "no such action")
          | some f ↦ f (todo_app_role PW AT (some p)) args
        ]

    -- A run of the runner, and the replies that it gets.
    unfoldable pub run : List (Action × List AT.Arg) → Exec PW.World (List Reply)
    run [] = pure []
    run ((a, args) ∷ l) = do r ← perform a args; rs ← run l; pure (r ∷ rs)
