-- ===== src/TodoMvc/Spec.antt =====
-- examples/todomvc/spec/todomvc.fizz: the specification that the page is tested against. The
-- dictionary `todos` is the list of its records in the order of insertion; the choices of an action
-- (a title, a filter, an index) are its arguments, and `none` means that a `require` fails. A title
-- may be any text that is not empty, and an edit any text, where the file takes them from
-- `TODO_STRINGS`; its limit of three additions in a run is that of the ids here.
pub mod Titles
pub mod Invariant
use fizzbee_mbt_examples.Prelude.{
  ℕ, suc, ◌+◌, List, [], ◌∷◌, ◌++◌, Option, none, some, Bool, true, false, not, Text, ltb, ◌==◌,
  if◌then◌else◌, length, get_elem?, map, keep_if,
}

abbrev pub max_items : ℕ
max_items = 3

pub data FilterState : Type 0 where
  all active completed : FilterState

pub data ToggleAllStatus : Type 0 where
  not_shown unchecked checked : ToggleAllStatus

pub record Item : Type 0 where
  pub id : ℕ
  pub title : Text
  pub completed : Bool

-- The state of `TodoView`.
pub record View : Type 0 where
  pub now_showing : FilterState
  pub shown_todos : List Item
  pub active_todo_count : ℕ
  pub toggle_all_status : ToggleAllStatus
  pub clear_button_shown : Bool

pub record State : Type 0 where
  pub todos : List Item
  pub next_id : ℕ
  pub view : View

abbrev pub is_active : Item → Bool
is_active t = not t.completed

abbrev pub shown : FilterState → List Item → List Item
shown all todos = todos
shown active todos = keep_if is_active todos
shown completed todos = keep_if (λ t. t.completed) todos

-- The status for a number of todos and of active ones.
abbrev pub status : ℕ → ℕ → ToggleAllStatus
status total actives = if total == 0 then not_shown else if actives == 0 then checked else unchecked

-- `TodoView.Refresh`
unfoldable pub refresh : State → State
refresh s =
    let actives = length (keep_if is_active s.todos) in
    record s {
      view = record s.view {
        shown_todos = shown s.view.now_showing s.todos;
        active_todo_count = actives;
        toggle_all_status = status (length s.todos) actives;
        clear_button_shown = ltb actives (length s.todos);
      };
    }

abbrev pub put : State → List Item → State
put s todos = refresh (record s { todos = todos })

-- `TodoModel.AddTodo`
unfoldable pub add_todo : Text → State → Option State
add_todo title s =
    if ltb s.next_id max_items
    then some (
        refresh (record s {
          todos = s.todos ++ record { id = s.next_id; title = title; completed = false } ∷ [];
          next_id = s.next_id + 1;
        }))
    else none

-- The dictionary with the item of an id replaced.
abbrev pub replace : ℕ → (Item → Item) → List Item → List Item
replace id f [] = []
replace id f (t ∷ ts) = (if t.id == id then f t else t) ∷ replace id f ts

unfoldable pub toggle : ℕ → State → State
toggle id s = put s (replace id (λ t. record t { completed = not t.completed }) s.todos)

unfoldable pub toggle_all : Bool → State → State
toggle_all flag s = put s (map {A = Item} (λ t. record t { completed = flag }) s.todos)

unfoldable pub destroy : ℕ → State → State
destroy id s = put s (keep_if (λ t. not (t.id == id)) s.todos)

unfoldable pub save : ℕ → Text → State → State
save id new_text s = put s (replace id (λ t. record t { title = new_text }) s.todos)

unfoldable pub clear_completed : State → State
clear_completed s = put s (keep_if is_active s.todos)

abbrev pub is_empty : Text → Bool
is_empty [] = true
is_empty (c ∷ t) = false

abbrev pub status_is : ToggleAllStatus → ToggleAllStatus → Bool
status_is not_shown not_shown = true
status_is unchecked unchecked = true
status_is checked checked = true
status_is _ _ = false

abbrev pub filter_is : FilterState → FilterState → Bool
filter_is all all = true
filter_is active active = true
filter_is completed completed = true
filter_is _ _ = false

abbrev pub has_any : List Item → Bool
has_any [] = false
has_any (t ∷ ts) = true

-- The actions of `TodoController`, with their choices.
pub data Action : Type 0 where
  user_adds_item : Text → Action
  user_switches_filter : FilterState → Action
  user_toggles_item : ℕ → Action
  user_toggles_all : Action
  user_deletes_item : ℕ → Action
  user_edits_item : ℕ → Text → Action
  user_clears_completed : Action

-- An action on the item that is shown at an index.
abbrev pub on_shown : State → Option Item → (ℕ → State) → Option State
on_shown s none f = none
on_shown s (some t) f = some (f t.id)

unfoldable pub step : Action → State → Option State
step (user_adds_item title) s =
    if is_empty title
    then none
    else if ltb (length s.todos) max_items
    then add_todo title s
    else none
step (user_switches_filter f) s =
    if has_any s.todos
    then (if filter_is s.view.now_showing f
        then none
        else some (refresh (record s { view = record s.view { now_showing = f } })))
    else none
step (user_toggles_item i) s = on_shown s (get_elem? s.view.shown_todos i) (λ id. toggle id s)
step user_toggles_all s =
    if status_is s.view.toggle_all_status not_shown
    then none
    else some (toggle_all (status_is s.view.toggle_all_status unchecked) s)
step (user_deletes_item i) s = on_shown s (get_elem? s.view.shown_todos i) (λ id. destroy id s)
step (user_edits_item i new_text) s =
    on_shown s (get_elem? s.view.shown_todos i)
      (λ id. if is_empty new_text then destroy id s else save id new_text s)
step user_clears_completed s = if s.view.clear_button_shown then some (clear_completed s) else none

abbrev pub init : State
init = record {
  todos = [];
  next_id = 0;
  view = record {
    now_showing = all;
    shown_todos = [];
    active_todo_count = 0;
    toggle_all_status = not_shown;
    clear_button_shown = false;
  };
}
