-- ===== src/TodoApp/Spec.antt =====
-- examples/todo-app/spec/todo.fizz: the specification that the application is tested against. The
-- choices of an action (a value, an id) are its arguments, and `none` means that a `require` fails
-- or that there is no such choice.
pub mod Invariant
pub mod Results
use fizzbee_mbt_examples.Prelude.{
  ℕ, zero, suc, ◌+◌, List, [], ◌∷◌, ◌++◌, Option, none, some, Bool, true, false, not, ◌&&◌, ◌||◌,
  Text, codes, text_eq, ltb, ◌==◌, if◌then◌else◌, length, get_elem?, set, keep_if, count_if,
}

abbrev pub max_todos : ℕ
max_todos = 3

-- `value in TODO_VALUES`
abbrev pub is_value : Text → Bool
is_value v = text_eq v (codes "A") || text_eq v (codes "B")

pub record Item : Type 0 where
  pub id : ℕ
  pub value : Text
  pub deleted : Bool
  pub pinned : Bool

pub record State : Type 0 where
  pub todos : List Item
  pub next_id : ℕ

abbrev pub init : State
init = record { todos = []; next_id = 1 }

pub data Action : Type 0 where
  create_todo : Text → Action
  update_todo : ℕ → Text → Action
  delete_todo : ℕ → Action
  read_todo : ℕ → Action
  list_todo : Action
  pin_todo : ℕ → Action
  un_pin_todo : ℕ → Action

-- What an action returns; `nothing` is `None`.
pub data Result : Type 0 where
  nothing : Result
  one : Item → Result
  many : List Item → Result

-- `self.todos[id-1]` for an `id` in `range(1, len(self.todos) + 1)`
abbrev pub todo_at : State → ℕ → Option Item
todo_at s zero = none
todo_at s (suc i) = get_elem? s.todos i

abbrev pub is_live : Item → Bool
is_live t = not t.deleted

abbrev pub is_pinned : Item → Bool
is_pinned t = t.pinned && not t.deleted

-- The state with `self.todos[id-1]` replaced.
abbrev pub put : State → ℕ → Item → State
put s zero t = s
put s (suc i) t = record s { todos = set s.todos i t }

-- A write to the todo of an id, which must not be deleted.
abbrev pub on_live : State → ℕ → Option Item → (Item → Item) → Option (Result × State)
on_live s id none f = none
on_live s id (some t) f = if t.deleted then none else some (nothing, put s id (f t))

abbrev pub on_other : Option Item → Text → Option (Result × State) → Option (Result × State)
on_other none v rest = none
on_other (some t) v rest = if text_eq v t.value then none else rest

abbrev pub read_result : Item → Result
read_result t = if t.deleted then nothing else one t

abbrev pub read_at : State → Option Item → Option (Result × State)
read_at s none = none
read_at s (some t) = some (read_result t, s)

unfoldable pub step : Action → State → Option (Result × State)
step (create_todo value) s =
    if ltb (length s.todos) max_todos && is_value value
    then some (
      nothing,
      record {
        todos =
            s.todos
            ++ record { id = s.next_id; value = value; deleted = false; pinned = false } ∷ [];
        next_id = s.next_id + 1;
      },
    )
    else none
step (update_todo id value) s =
    if is_value value
    then on_other (todo_at s id) value
        (on_live s id (todo_at s id) (λ t. record t { value = value }))
    else none
step (delete_todo id) s = on_live s id (todo_at s id) (λ t. record t { deleted = true })
step (read_todo id) s = read_at s (todo_at s id)
step list_todo s = some (many (keep_if is_live s.todos), s)
step (pin_todo id) s =
    if count_if is_pinned s.todos == 0
    then on_live s id (todo_at s id) (λ t. record t { pinned = true })
    else none
step (un_pin_todo id) s = on_live s id (todo_at s id) (λ t. record t { pinned = false })
