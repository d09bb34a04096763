-- ===== src/TodoApp/Actions/Safe.antt =====
-- Failures of the actions that change a todo.
use fizzbee_mbt_examples.Prelude.{
  ℕ, suc, List, Option, none, some, true, false, Text, codes, ◌≡◌, ◌⊎◌, inl, inr, refl, Outcome, ok,
  throw, Exec, get_elem?, arith,
}
use fizzbee_mbt_examples.Browser.{Locator, Playwright, ArgType}
use fizzbee_mbt_examples.TodoApp.Actions.{
  undefined, argument, todo_card, get_todo_id, is_missing, hover_on_card, safe_run, settle,
  action_update_todo, action_delete_todo, action_pin_todo, action_un_pin_todo, update_todo,
  delete_todo, pin_todo, un_pin_todo,
}
use fizzbee_mbt_examples.TodoApp.Actions.Reading.{action_read_todo}

module _ (PW : Playwright) (AT : ArgType) (page : Option PW.Page) where
  settle-ok :
      (label : Text) (r : Outcome (Unit {0}) × PW.World)
      → (settle PW AT page label r).0 ≡ ok undefined
  settle-ok label (ok u, w) = refl
  settle-ok label (throw e, w) = refl

  safe_run-ok :
      (label : Text) (m : Exec PW.World (Unit {0})) (w : PW.World)
      → (safe_run PW AT page label m w).0 ≡ ok undefined
  unfolding safe_run
  safe_run-ok label m w = settle-ok label (m w)

  -- `UpdateTodo`, `DeleteTodo`, `PinTodo` and `UnPinTodo` never reject: in any browser, on any page,
  -- also without one, and with any arguments, also too few, they resolve to `undefined`.
  pub changes_never_reject :
      (args : List AT.Arg) (w : PW.World)
      → ((action_update_todo PW AT page args w).0 ≡ ok undefined)
        × ((action_delete_todo PW AT page args w).0 ≡ ok undefined)
        × ((action_pin_todo PW AT page args w).0 ≡ ok undefined)
        × ((action_un_pin_todo PW AT page args w).0 ≡ ok undefined)
  unfolding action_update_todo action_delete_todo action_pin_todo action_un_pin_todo
  changes_never_reject args w = (
    safe_run-ok (codes "updateTodo") (update_todo PW AT page args) w,
    safe_run-ok (codes "deleteTodo") (delete_todo PW AT page args) w,
    safe_run-ok (codes "pinTodo") (pin_todo PW AT page args) w,
    safe_run-ok (codes "unpinTodo") (un_pin_todo PW AT page args) w,
  )

-- A card that the page does not have, or does not show, where questions leave the world alone.
abbrev pub IsAbsent : (PW : Playwright) → PW.Page → Locator → PW.World → Type 0
IsAbsent PW p card w =
    (PW.count p card w ≡ (ok 0, w))
    ⊎ ((n : ℕ) × (PW.count p card w ≡ (ok (suc n), w)) × (PW.is_visible p card w ≡ (ok false, w)))

module _ (PW : Playwright) (AT : ArgType) (p : PW.Page) (a : AT.Arg) (args : List AT.Arg)
    (w : PW.World) (first : get_elem? args 0 ≡ some a)
    (absent : IsAbsent PW p (todo_card (get_todo_id PW AT a)) w) where
  missing : is_missing PW p (todo_card (get_todo_id PW AT a)) w ≡ (ok true, w)
  unfolding is_missing
  missing = elim absent [ inl e ↦ rw e | inr (n, e, v) ↦ rw e (ground (arith, v)) ]

  not_hovered : hover_on_card PW AT (some p) (get_todo_id PW AT a) w ≡ (ok none, w)
  unfolding hover_on_card
  not_hovered = rw missing

  unread : action_read_todo PW AT (some p) args w ≡ (ok undefined, w)
  unfolding action_read_todo
  unread = rw (first, argument) (rw missing)

  not_updated : action_update_todo PW AT (some p) args w ≡ (ok undefined, w)
  unfolding action_update_todo update_todo
  not_updated = rw (first, argument) (rw not_hovered)

  not_deleted : action_delete_todo PW AT (some p) args w ≡ (ok undefined, w)
  unfolding action_delete_todo delete_todo
  not_deleted = rw (first, argument) (rw not_hovered)

  not_pinned : action_pin_todo PW AT (some p) args w ≡ (ok undefined, w)
  unfolding action_pin_todo pin_todo
  not_pinned = rw (first, argument) (rw not_hovered)

  not_un_pinned : action_un_pin_todo PW AT (some p) args w ≡ (ok undefined, w)
  unfolding action_un_pin_todo un_pin_todo
  not_un_pinned = rw (first, argument) (rw not_hovered)

  -- For a todo whose card the page lacks or hides, where asking for it changes nothing: the actions
  -- on it resolve to `undefined`, with no click, no text filled in and no error logged: the world
  -- is as it was.
  pub absent_does_nothing :
      (action_read_todo PW AT (some p) args w ≡ (ok undefined, w))
      × (action_update_todo PW AT (some p) args w ≡ (ok undefined, w))
      × (action_delete_todo PW AT (some p) args w ≡ (ok undefined, w))
      × (action_pin_todo PW AT (some p) args w ≡ (ok undefined, w))
      × (action_un_pin_todo PW AT (some p) args w ≡ (ok undefined, w))
  absent_does_nothing = (unread, not_updated, not_deleted, not_pinned, not_un_pinned)
