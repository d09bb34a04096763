-- ===== src/TodoMvc/View.antt =====
-- examples/todomvc/fizztests/todomvc_adapters.ts: `TodoViewRoleAdapter`, which reads the state of
-- the page that the runner compares with the specification's.
pub mod Renders
use fizzbee_mbt_examples.Prelude.{
  ℕ, List, [], ◌∷◌, ◌++◌, Option, none, some, Bool, true, false, ◌&&◌, Text, codes, Exec, Outcome,
  ok, throw, pure, continue, ◌>>=◌, leb, if◌then◌else◌,
}
use fizzbee_mbt_examples.Prelude.Int.{pos}
use fizzbee_mbt_examples.Js.Strings.{trim, includes}
use fizzbee_mbt_examples.Js.Numbers.{Number, parse_int}
use fizzbee_mbt_examples.Browser.{
  AriaRole, textbox, button, link, checkbox, Locator, by_role, by_test_id, css, inside, nth,
  Playwright,
}

-- An entry of `shownTodos`; its field `id` is always `IGNORE`.
pub record ShownTodo : Type 0 where
  pub title : Text
  pub completed : Bool

pub record ViewState : Type 0 where
  pub now_showing : Text
  pub shown_todos : List ShownTodo
  pub active_todo_count : Number
  pub toggle_all_status : Text
  pub clear_button_shown : Bool

abbrev pub todo_item : Locator
todo_item = by_test_id (codes "todo-item")

abbrev pub toggle_todo : Locator
toggle_todo = by_role checkbox (codes "Toggle Todo")

abbrev pub todo_count : Locator
todo_count = css (codes ".todo-count")

abbrev pub toggle_all : Locator
toggle_all = by_role checkbox (codes "❯Mark all as complete")

abbrev pub clear_completed : Locator
clear_completed = by_role button (codes "Clear completed")

-- `getNowShowing`, on the page's address.
unfoldable pub get_now_showing : Text → Text
get_now_showing url =
    if includes url (codes "#/active")
    then codes "Active"
    else if includes url (codes "#/completed")
    then codes "Completed"
    else codes "All"

abbrev pub is_digit : ℕ → Bool
is_digit c = leb b'0' c && leb c b'9'

-- The digits at the start of a text.
unfoldable pub digit_run : Text → Text
digit_run [] = []
digit_run (c ∷ s) = if is_digit c then c ∷ digit_run s else []

-- `text.match(/(\d+)/)`: the first run of digits.
unfoldable pub match_digits : Text → Option Text
unfolding digit_run
match_digits [] = none
match_digits (c ∷ s) = if is_digit c then some (c ∷ digit_run s) else match_digits s

-- `countText?.match(/(\d+)/)`
abbrev pub match_count : Option Text → Option Text
match_count none = none
match_count (some t) = match_digits t

abbrev pub parse_count : Option Text → Number
parse_count none = some (pos 0)
parse_count (some digits) = parse_int digits

abbrev pub or_empty : Option Text → Text
or_empty none = []
or_empty (some t) = t

-- `try { … } catch (e) { return a }`
abbrev pub recover : {W A : Type 0} → A → Outcome A × W → Outcome A × W
recover a (ok b, w) = (ok b, w)
recover a (throw e, w) = (ok a, w)

module _ (PW : Playwright) (p : PW.Page) where
  open PW use {World}

  unfoldable pub read_item : Locator → Exec World ShownTodo
  read_item item = do
    label ← PW.text_content p (inside item (css (codes "label")))
    completed ← PW.is_checked p (inside item toggle_todo)
    pure (record { title = trim (or_empty label); completed = completed })

  -- The loop of `getShownTodos`.
  unfoldable pub read_items : List Locator → List ShownTodo → Exec World (List ShownTodo)
  read_items [] todos = pure todos
  read_items (item ∷ items) todos = do t ← read_item item; read_items items (todos ++ t ∷ [])

  unfoldable pub get_shown_todos : Exec World (List ShownTodo)
  get_shown_todos = do items ← PW.all p todo_item; read_items items []

  unfoldable pub get_active_todo_count : Exec World Number
  get_active_todo_count = do
    visible ← PW.is_visible p todo_count
    if visible
        then (do
          count_text ← PW.text_content p todo_count
          pure (parse_count (match_count count_text)))
        else pure (some (pos 0))

  unfoldable pub get_toggle_all_status : Exec World Text
  get_toggle_all_status w = recover (codes "NotShown") (
      (do
        visible ← PW.is_visible p toggle_all
        if visible
            then (do
              checked ← PW.is_checked p toggle_all
              pure (if checked then codes "Checked" else codes "Unchecked"))
            else pure (codes "NotShown"))
        w)

  unfoldable pub get_clear_button_shown : Exec World Bool
  get_clear_button_shown w = recover false (PW.is_visible p clear_completed w)

  -- The fields are computed in the order of the object literal.
  unfoldable pub get_state : Exec World ViewState
  get_state w =
      (do
        shown ← get_shown_todos
        active ← get_active_todo_count
        status ← get_toggle_all_status
        clear ← get_clear_button_shown
        pure (record {
          now_showing = get_now_showing (PW.url p w);
          shown_todos = shown;
          active_todo_count = active;
          toggle_all_status = status;
          clear_button_shown = clear;
        }))
        w
