-- ===== src/TodoApp/Actions/Reading.antt =====
-- examples/todo-app/typescript/fizztests/todo_adapters.ts: the actions that read, `ReadTodo` and
-- `ListTodo`.
pub mod Lists
pub mod Observed
use fizzbee_mbt_examples.Prelude.{
  ℕ, zero, suc, ◌+◌, List, [], ◌∷◌, ◌++◌, Option, none, some, Bool, true, false, Text, codes, Exec,
  Outcome, ok, throw, pure, continue, ◌>>=◌, ◌>>◌, ltb, if◌then◌else◌,
}
use fizzbee_mbt_examples.Js.Strings.{includes, split, last_or}
use fizzbee_mbt_examples.Js.Numbers.{Number, to_string, parse_int}
use fizzbee_mbt_examples.Js.Sort.{sort}
use fizzbee_mbt_examples.Browser.{
  AriaRole, button, Locator, by_role, by_test_id, css, inside, nth, Playwright, ArgType,
}
use fizzbee_mbt_examples.TodoApp.Format.{
  TodoRecord, get_value_from_title, to_fizz_bee_format, to_fizz_bee_format_list,
}
use fizzbee_mbt_examples.TodoApp.Actions.{
  Reply, undefined, text, todo_card, all_cards, modal, pin_icon, or_empty, has_word, the_page,
  argument, not_null, get_todo_id, is_missing,
}

-- The last part of a test id, behind the last dash.
abbrev pub last_part : List Text → Text
last_part [] = []
last_part (p ∷ ps) = last_or p ps

abbrev pub id_of_test_id : Text → Number
id_of_test_id testid = parse_int (last_part (split testid b'-'))

module _ (PW : Playwright) where
  open PW use {World, Page}

  -- The class of the pin icon of the modal, if there is one.
  abbrev pub pin_class : Page → ℕ → Exec World (Option Text)
  pin_class p zero = pure (some [])
  pin_class p (suc n) = PW.get_attribute p (nth pin_icon 0) (codes "class")

  -- `ReadTodo` from where the card is known to be there.
  unfoldable pub read_card : Page → Number → Exec World Reply
  read_card p id = do
    PW.click p (todo_card id)
    PW.wait_for p modal
    title ← PW.text_content p (inside modal (by_test_id (codes "todo-title")))
    let value = get_value_from_title (or_empty title)
    pin_count ← PW.count p pin_icon
    cls ← pin_class p pin_count
    let pinned = has_word cls (codes "bi-pin-fill")
    PW.click p (by_role button (0xf659 ∷ []))
    pure (
        text (
          to_fizz_bee_format (record { id = id; value = value; deleted = false; pinned = pinned })))

  -- `extractTodo`
  unfoldable pub extract_todo : Page → Locator → Exec World TodoRecord
  extract_todo p card = do
    attribute ← PW.get_attribute p card (codes "data-testid")
    testid ← not_null PW attribute
    let id = id_of_test_id testid
    title_text ← PW.text_content p (inside card (by_test_id (codes "todo-title-" ++ to_string id)))
    cls ← PW.get_attribute p card (codes "class")
    pure (record {
      id = id;
      value = get_value_from_title (or_empty title_text);
      deleted = false;
      pinned = has_word cls (codes "pinned");
    })

  -- The loop of `ListTodo` with `left` rounds left, at the index `i`; `results` is what was pushed.
  unfoldable pub extract_all : Page → ℕ → ℕ → List TodoRecord → Exec World (List TodoRecord)
  extract_all p zero i results = pure results
  extract_all p (suc left) i results = do
    r ← extract_todo p (nth all_cards i)
    extract_all p left (i + 1) (results ++ r ∷ [])

  unfoldable pub list_cards : Page → Exec World Reply
  unfolding extract_all
  list_cards p = do
    count ← PW.count p all_cards
    results ← extract_all p count 0 []
    pure (text (to_fizz_bee_format_list (sort (λ r. r.id) results)))

module _ (PW : Playwright) (AT : ArgType) (page : Option PW.Page) where
  unfoldable pub action_read_todo : List AT.Arg → Exec PW.World Reply
  unfolding read_card
  action_read_todo args = do
    a ← argument PW AT args 0
    let id = get_todo_id PW AT a
    p ← the_page PW page
    missing ← is_missing PW p (todo_card id)
    if missing then pure undefined else read_card PW p id

  unfoldable pub action_list_todo : List AT.Arg → Exec PW.World Reply
  unfolding list_cards
  action_list_todo args = do p ← the_page PW page; list_cards PW p
