-- ===== src/TodoApp/Actions.antt =====
-- examples/todo-app/typescript/fizztests/todo_adapters.ts: the actions of `TodoAppRoleAdapter`,
-- over any browser. `page` is the field `this.page`, which no action changes.
pub mod Safe
pub mod Reading
use mathlib.Core.Option
use fizzbee_mbt_examples.Prelude.{
  ℕ, zero, suc, List, [], ◌∷◌, ◌++◌, Option, none, some, Bool, true, false, not, ◌&&◌, ◌||◌, Text,
  codes, Exec, Outcome, ok, throw, raise, pure, continue, ◌>>=◌, ◌>>◌, get_elem?, text_eq, ◌==◌,
  if◌then◌else◌,
}
use fizzbee_mbt_examples.Js.Strings.{includes, split, last_or}
use fizzbee_mbt_examples.Js.Numbers.{Number, to_string, parse_int}
use fizzbee_mbt_examples.Js.Sort.{sort}
use fizzbee_mbt_examples.Browser.{
  AriaRole, textbox, button, Locator, by_role, by_test_id, css, inside, nth, Response, Playwright,
  ArgType,
}
use fizzbee_mbt_examples.TodoApp.Format.{
  TodoRecord, title_prefix, description_prefix, get_value_from_title, to_fizz_bee_format,
  to_fizz_bee_format_list,
}

-- What an action resolves to.
pub data Reply : Type 0 where
  undefined : Reply
  text : Text → Reply

abbrev pub take_a_note : Locator
take_a_note = by_role textbox (codes "Take a note...")

abbrev pub content_box : Locator
content_box = by_role textbox (codes "Content...")

abbrev pub todo_card : Number → Locator
todo_card id = by_test_id (codes "todo-card-" ++ to_string id)

abbrev pub all_cards : Locator
all_cards = css (codes "[data-testid^='todo-card-']")

abbrev pub modal : Locator
modal = css (codes "#todoModalContent")

abbrev pub pin_icon : Locator
pin_icon = inside modal (css (codes "i.bi-pin, i.bi-pin-fill"))

-- `text || ''` of a text that may be null.
abbrev pub or_empty : Option Text → Text
or_empty none = []
or_empty (some t) = t

-- `cls?.includes(word) || false`
abbrev pub has_word : Option Text → Text → Bool
has_word none word = false
has_word (some cls) word = includes cls word

module _ (PW : Playwright) where
  open PW use {World, Page}

  -- `this.page!`, and a `null` that a method is called on.
  abbrev pub the_page : Option Page → Exec World Page
  the_page none = raise (codes "TypeError")
  the_page (some p) = pure p

  abbrev pub not_null : Option Text → Exec World Text
  not_null none = raise (codes "TypeError")
  not_null (some t) = pure t

  -- `count === 0 || !(await card.isVisible())`
  unfoldable pub is_missing : Page → Locator → Exec World Bool
  is_missing p card = do
    n ← PW.count p card
    if n == 0 then pure true else do visible ← PW.is_visible p card; pure (not visible)

module _ (PW : Playwright) (AT : ArgType) where
  open PW use {World, Page}
  open AT use {Arg, as_number, to_text}

  -- `args[i]`, and a method call on it.
  abbrev pub argument : List Arg → ℕ → Exec World Arg
  argument args i w = elim (get_elem? args i) [
    | none ↦ raise (codes "TypeError") w
    | some a ↦ pure a w
  ]

  -- `getTodoId`
  abbrev pub number_or_parse : Option Number → Text → Number
  number_or_parse none t = parse_int t
  number_or_parse (some n) t = n

  abbrev pub get_todo_id : Arg → Number
  get_todo_id a = number_or_parse (as_number a) (to_text a)

  module _ (page : Option Page) where
    -- `clickAndWaitForListDomUpdate`
    unfoldable pub click_and_wait_for_list_dom_update : Locator → Exec World (Unit {0})
    click_and_wait_for_list_dom_update btn = do
      p ← the_page PW page
      before ← PW.text_content p (css (codes "#todoUpdateCounter"))
      PW.click p btn
      PW.wait_for_text_change p (codes "todoUpdateCounter") before

    -- The response that the pin flow waits for.
    abbrev pub is_pin_patch : Number → Response → Bool
    is_pin_patch id r =
        includes r.url (codes "/todos/" ++ (to_string id ++ codes "/pin"))
        && text_eq r.method (codes "PATCH")

    -- `pinAndWaitForListDomUpdate`
    unfoldable pub pin_and_wait_for_list_dom_update : Locator → Number → Exec World (Unit {0})
    pin_and_wait_for_list_dom_update btn id = do
      p ← the_page PW page
      before ← PW.text_content p (css (codes "#todoUpdateCounter"))
      response ← PW.click_for_response p (is_pin_patch id) 5000 btn
      if response.is_ok
          then PW.wait_for_text_change p (codes "todoUpdateCounter") before
          else pure tt

    -- `hoverOnCard`
    unfoldable pub hover_on_card : Number → Exec World (Option Locator)
    hover_on_card id = do
      p ← the_page PW page
      missing ← is_missing PW p (todo_card id)
      if missing then pure none else do PW.hover p (todo_card id); pure (some (todo_card id))

    -- `safeRun`
    abbrev pub settle : Text → Outcome (Unit {0}) × World → Outcome Reply × World
    settle label (ok u, w) = (ok undefined, w)
    settle label (throw e, w) =
        (ok undefined, PW.console_error (codes "Error in " ++ (label ++ codes ":")) e w)

    unfoldable pub safe_run : Text → Exec World (Unit {0}) → Exec World Reply
    safe_run label action w = settle label (action w)

    -- What the actions on a card do once it is hovered on; a missing card ends them.
    abbrev pub on_card : Option Locator → Exec World (Unit {0}) → Exec World (Unit {0})
    on_card none rest = pure tt
    on_card (some card) rest = rest

    unfoldable pub action_create_todo : List Arg → Exec World Reply
    action_create_todo args = do
      a ← argument args 0
      let val = to_text a
      let title = title_prefix ++ val
      let content = description_prefix ++ val
      p ← the_page PW page
      PW.fill p take_a_note title
      PW.fill p content_box content
      click_and_wait_for_list_dom_update (by_role button (codes "Add"))
      pure undefined

    unfoldable pub update_todo : List Arg → Exec World (Unit {0})
    update_todo args = do
      a ← argument args 0
      let todo_id = get_todo_id a
      card ← hover_on_card todo_id
      on_card card (do
        p ← the_page PW page
        PW.click p (by_test_id (codes "edit-todo-" ++ to_string todo_id))
        b ← argument args 1
        let val = to_text b
        let update_btn = by_role button (codes "Update")
        PW.wait_for p update_btn
        PW.fill p take_a_note (title_prefix ++ val)
        PW.fill p content_box (description_prefix ++ val)
        click_and_wait_for_list_dom_update update_btn)

    unfoldable pub action_update_todo : List Arg → Exec World Reply
    unfolding safe_run
    action_update_todo args = safe_run (codes "updateTodo") (update_todo args)

    unfoldable pub delete_todo : List Arg → Exec World (Unit {0})
    delete_todo args = do
      a ← argument args 0
      let id = get_todo_id a
      card ← hover_on_card id
      on_card card (do
        p ← the_page PW page
        PW.accept_next_dialog p
        click_and_wait_for_list_dom_update (by_test_id (codes "delete-todo-" ++ to_string id)))

    unfoldable pub action_delete_todo : List Arg → Exec World Reply
    unfolding safe_run
    action_delete_todo args = safe_run (codes "deleteTodo") (delete_todo args)

    unfoldable pub pin_todo : List Arg → Exec World (Unit {0})
    pin_todo args = do
      a ← argument args 0
      let id = get_todo_id a
      card ← hover_on_card id
      on_card card (do
        p ← the_page PW page
        let pin = by_test_id (codes "pin-todo-" ++ to_string id)
        n ← PW.count p pin
        if n == 0 then pure tt else pin_and_wait_for_list_dom_update pin id)

    unfoldable pub action_pin_todo : List Arg → Exec World Reply
    unfolding safe_run
    action_pin_todo args = safe_run (codes "pinTodo") (pin_todo args)

    unfoldable pub un_pin_todo : List Arg → Exec World (Unit {0})
    un_pin_todo args = do
      a ← argument args 0
      let id = get_todo_id a
      card ← hover_on_card id
      on_card card (do
        p ← the_page PW page
        let unpin = by_test_id (codes "unpin-todo-" ++ to_string id)
        n ← PW.count p unpin
        if n == 0 then pure tt else click_and_wait_for_list_dom_update unpin)

    unfoldable pub action_un_pin_todo : List Arg → Exec World Reply
    unfolding safe_run
    action_un_pin_todo args = safe_run (codes "unpinTodo") (un_pin_todo args)
