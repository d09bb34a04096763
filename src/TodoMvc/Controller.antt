-- ===== src/TodoMvc/Controller.antt =====
-- examples/todomvc/fizztests/todomvc_adapters.ts: `TodoControllerRoleAdapter`, the user's actions
-- on the page. Each returns `undefined`, modelled by the unit.
pub mod Guards
use fizzbee_mbt_examples.Prelude.{
  ℕ, List, [], ◌∷◌, ◌++◌, Option, none, some, Bool, true, false, Text, codes, text_eq, Exec,
  Outcome, ok, throw, raise, pure, continue, ◌>>=◌, ◌>>◌, get_elem?, if◌then◌else◌,
}
use fizzbee_mbt_examples.Browser.{
  AriaRole, textbox, button, link, Locator, by_role, by_test_id, inside, nth, Playwright, ArgType,
}
use fizzbee_mbt_examples.TodoMvc.View.{todo_item, toggle_todo, toggle_all, clear_completed}

abbrev pub new_todo : Locator
new_todo = by_role textbox (codes "What needs to be done?")

abbrev pub edit_box : Locator
edit_box = by_role textbox (codes "Edit")

abbrev pub todo_title : Locator
todo_title = by_test_id (codes "todo-title")

abbrev pub delete_button : Locator
delete_button = by_role button (codes "Delete")

-- The link of a filter, if the name is one.
unfoldable pub filter_link : Text → Option Locator
filter_link new_filter =
    if text_eq new_filter (codes "All")
    then some (by_role link (codes "All"))
    else if text_eq new_filter (codes "Active")
    then some (by_role link (codes "Active"))
    else if text_eq new_filter (codes "Completed")
    then some (by_role link (codes "Completed"))
    else none

module _ (PW : Playwright) (AT : ArgType) (p : PW.Page) where
  open PW use {World}
  open AT use {Arg, to_text}

  -- `args[i].toString()`
  abbrev pub text_argument : List Arg → ℕ → Exec World Text
  text_argument args i w = elim (get_elem? args i) [
    | none ↦ raise (codes "TypeError") w
    | some a ↦ pure (to_text a) w
  ]

  -- The item at the index `args[0]`.
  abbrev pub item_at : List Arg → Locator
  item_at args = nth todo_item (AT.as_index (get_elem? args 0))

  -- `if (await locator.isVisible()) { … }`
  abbrev pub if_visible : Locator → Exec World (Unit {0}) → Exec World (Unit {0})
  if_visible target rest = do visible ← PW.is_visible p target; if visible then rest else pure tt

  unfoldable pub action_user_adds_item : List Arg → Exec World (Unit {0})
  action_user_adds_item args = do
    title ← text_argument args 0
    PW.fill p new_todo title
    PW.press p new_todo (codes "Enter")

  abbrev pub click_link : Option Locator → Exec World (Unit {0})
  click_link none = pure tt
  click_link (some target) = if_visible target (PW.click p target)

  unfoldable pub action_user_switches_filter : List Arg → Exec World (Unit {0})
  unfolding filter_link
  action_user_switches_filter args = do
    new_filter ← text_argument args 0
    click_link (filter_link new_filter)

  unfoldable pub action_user_toggles_item : List Arg → Exec World (Unit {0})
  action_user_toggles_item args =
      let check = inside (item_at args) toggle_todo in if_visible check (PW.click p check)

  unfoldable pub action_user_toggles_all : List Arg → Exec World (Unit {0})
  action_user_toggles_all args = if_visible toggle_all (PW.click p toggle_all)

  unfoldable pub action_user_deletes_item : List Arg → Exec World (Unit {0})
  action_user_deletes_item args =
      let item = item_at args in
      if_visible item (do PW.hover p item; PW.click p (inside item delete_button))

  unfoldable pub action_user_edits_item : List Arg → Exec World (Unit {0})
  action_user_edits_item args = do
    new_text ← text_argument args 1
    let title = inside (item_at args) todo_title
    if_visible title
        (do PW.dblclick p title; PW.fill p edit_box new_text; PW.press p edit_box (codes "Enter"))

  unfoldable pub action_user_clears_completed : List Arg → Exec World (Unit {0})
  action_user_clears_completed args = if_visible clear_completed (PW.click p clear_completed)
