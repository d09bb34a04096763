-- ===== src/TodoApp/Spec/Results.antt =====
-- What the actions of todo.fizz return.
use fizzbee_mbt_examples.Prelude.{
  ℕ, Option, none, some, some_injective, none-ne-some, if_then-some, if_else-some, if_else-false,
  false, ◌&&◌, ltb, ◌==◌, length, List, [], ◌∷◌, zero, suc, get_elem?, set, ◌∙◌, count_if, ◌≡◌,
  refl, sym, ap,
}
use fizzbee_mbt_examples.TodoApp.Spec.{
  Item, State, Action, create_todo, update_todo, delete_todo, read_todo, list_todo, pin_todo,
  un_pin_todo, Result, nothing, max_todos, is_value, is_pinned, todo_at, on_live, read_at, step,
  put,
}
use fizzbee_mbt_examples.TodoApp.Spec.Invariant.{on_other-some, read_at-same}

abbrev pub Writes : Action → Type 0
Writes (create_todo v) = Unit
Writes (update_todo id v) = Unit
Writes (delete_todo id) = Unit
Writes (read_todo id) = ⊥
Writes list_todo = ⊥
Writes (pin_todo id) = Unit
Writes (un_pin_todo id) = Unit

on_live-nothing :
    (s : State) (id : ℕ) (o : Option Item) (f : Item → Item) {r : Result} {t : State}
    → on_live s id o f ≡ some (r, t)
    → r ≡ nothing
on_live-nothing s id none f e = absurd (none-ne-some e)
on_live-nothing s id (some u) f e =
    ap (λ (x : Result × State). x.0) (sym (some_injective (if_else-some u.deleted _ e)))

-- An action that writes returns nothing.
pub step-nothing :
    (a : Action) (s : State) {r : Result} {t : State}
    → Writes a
    → step a s ≡ some (r, t)
    → r ≡ nothing
unfolding step
step-nothing (create_todo v) s h e =
    ap (λ (x : Result × State). x.0)
      (sym (some_injective (if_then-some (ltb (length s.todos) max_todos && is_value v) _ e)))
step-nothing (update_todo id v) s h e =
    on_live-nothing s id _ _ (on_other-some (todo_at s id) v _ (if_then-some (is_value v) _ e))
step-nothing (delete_todo id) s h e = on_live-nothing s id _ _ e
step-nothing (read_todo id) s h e = absurd h
step-nothing list_todo s h e = absurd h
step-nothing (pin_todo id) s h e =
    on_live-nothing s id _ _ (if_then-some (count_if is_pinned s.todos == 0) _ e)
step-nothing (un_pin_todo id) s h e = on_live-nothing s id _ _ e

on_live-there :
    (s : State) (id : ℕ) (o : Option Item) (f : Item → Item) {x : Result × State}
    → on_live s id o f ≡ some x
    → (u : Item) × (o ≡ some u) × (u.deleted ≡ false)
on_live-there s id none f e = absurd (none-ne-some e)
on_live-there s id (some u) f e = (u, refl, if_else-false u.deleted _ e)

-- The actions that change a todo, and its id.
abbrev pub Changes : Action → Type 0
Changes (create_todo v) = ⊥
Changes (update_todo id v) = Unit
Changes (delete_todo id) = Unit
Changes (read_todo id) = ⊥
Changes list_todo = ⊥
Changes (pin_todo id) = Unit
Changes (un_pin_todo id) = Unit

abbrev pub target : Action → ℕ
target (create_todo v) = 0
target (update_todo id v) = id
target (delete_todo id) = id
target (read_todo id) = id
target list_todo = 0
target (pin_todo id) = id
target (un_pin_todo id) = id

-- The todo that an action changes is there and is not deleted.
pub step-there :
    (a : Action) (s : State) {x : Result × State}
    → Changes a
    → step a s ≡ some x
    → (u : Item) × (todo_at s (target a) ≡ some u) × (u.deleted ≡ false)
unfolding step
step-there (create_todo v) s h e = absurd h
step-there (update_todo id v) s h e =
    on_live-there s id _ _ (on_other-some (todo_at s id) v _ (if_then-some (is_value v) _ e))
step-there (delete_todo id) s h e = on_live-there s id _ _ e
step-there (read_todo id) s h e = absurd h
step-there list_todo s h e = absurd h
step-there (pin_todo id) s h e =
    on_live-there s id _ _ (if_then-some (count_if is_pinned s.todos == 0) _ e)
step-there (un_pin_todo id) s h e = on_live-there s id _ _ e

read_at-some :
    (s : State) (o : Option Item) {x : Result × State}
    → read_at s o ≡ some x
    → (u : Item) × (o ≡ some u)
read_at-some s none e = absurd (none-ne-some e)
read_at-some s (some u) e = (u, refl)

pub read_todo-some :
    (id : ℕ) (s : State) {x : Result × State}
    → step (read_todo id) s ≡ some x
    → (u : Item) × (todo_at s id ≡ some u)
unfolding step
read_todo-some id s e = read_at-some s (todo_at s id) e

-- The actions that read leave the state as it is.
pub read_todo-same :
    (id : ℕ) (s : State) {r : Result} {t : State} → step (read_todo id) s ≡ some (r, t) → s ≡ t
unfolding step
read_todo-same id s e = read_at-same s (todo_at s id) e

pub list_todo-same : (s : State) {r : Result} {t : State} → step list_todo s ≡ some (r, t) → s ≡ t
unfolding step
list_todo-same s e = ap (λ (x : Result × State). x.1) (some_injective e)

set-get_elem? :
    {A : Type 0} (ts : List A) (i : ℕ) (u : A) → get_elem? ts i ≡ some u → set ts i u ≡ ts
set-get_elem? [] i u e = refl
set-get_elem? (x ∷ ts) zero u e = ap (λ y. y ∷ ts) (sym (some_injective e))
set-get_elem? (x ∷ ts) (suc i) u e = ap (λ l. x ∷ l) (set-get_elem? ts i u e)

put-todo_at : (s : State) (id : ℕ) (u : Item) → todo_at s id ≡ some u → put s id u ≡ s
put-todo_at s zero u e = refl
put-todo_at s (suc i) u e = ap (λ l. record s { todos = l }) (set-get_elem? s.todos i u e)

-- `UnPinTodo` of a todo that is not pinned leaves the state as it is.
pub un_pin_todo-same :
    (id : ℕ) (s : State) (u : Item) {r : Result} {t : State}
    → todo_at s id ≡ some u
    → u.pinned ≡ false
    → step (un_pin_todo id) s ≡ some (r, t)
    → s ≡ t
unfolding step
un_pin_todo-same id s u at p e =
    sym (put-todo_at s id u at)
    ∙ ap (λ b. put s id (record u { pinned = b })) p
    ∙ ap (λ (x : Result × State). x.1) (some_injective (if_else-some u.deleted _ (rw at at e)))
