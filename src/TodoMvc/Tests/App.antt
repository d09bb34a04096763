-- ===== src/TodoMvc/Tests/App.antt =====
-- An application that does as todomvc.fizz says, behind the operations of the browser: the page is
-- drawn from a state of the specification.
mod Elements
mod Conforms
mod Sessions
use fizzbee_mbt_examples.Prelude.{
  ℕ, zero, suc, ◌+◌, List, [], ◌∷◌, ◌++◌, Option, none, some, Bool, true, false, Text, codes, ok,
  throw, Outcome, Exec, if◌then◌else◌, text_eq, get_elem?, length, keep_if, ◌==◌,
}
use fizzbee_mbt_examples.Prelude.Int.{pos}
use fizzbee_mbt_examples.Js.Numbers.{decimal}
use fizzbee_mbt_examples.Browser.{
  AriaRole, textbox, button, link, checkbox, Locator, by_role, by_test_id, css, inside, nth,
  Response, Playwright, ArgType,
}
use fizzbee_mbt_examples.TodoMvc.Spec.{
  Item, State, Action, FilterState, all, active, completed, user_adds_item, user_switches_filter,
  user_toggles_item, user_toggles_all, user_deletes_item, user_edits_item, user_clears_completed,
  step, has_any, is_active, init,
}
use fizzbee_mbt_examples.TodoMvc.View.Renders.{base_url, route}

pub record App : Type 0 where
  pub state : State
  pub typed : Text
  pub editing : ℕ

-- An action, if the specification allows it.
abbrev pub follow : Option State → App → App
follow none w = w
follow (some t) w = record w { state = t }

unfoldable pub act : Action → App → App
act a w = follow (step a w.state) w

abbrev pub filter_of : Text → FilterState
filter_of name =
    if text_eq name (codes "Active")
    then active
    else if text_eq name (codes "Completed")
    then completed
    else all

abbrev pub enter_in : Text → App → App
enter_in name w =
    if text_eq name (codes "Edit")
    then act (user_edits_item w.editing w.typed) w
    else act (user_adds_item w.typed) w

abbrev pub click_on : Locator → App → App
click_on (by_role link name) w = act (user_switches_filter (filter_of name)) w
click_on (by_role checkbox name) w = act user_toggles_all w
click_on (by_role button name) w = act user_clears_completed w
click_on (inside (nth l i) (by_role checkbox name)) w = act (user_toggles_item i) w
click_on (inside (nth l i) (by_role button name)) w = act (user_deletes_item i) w
click_on _ w = w

abbrev pub press_in : Locator → App → App
press_in (by_role r name) w = enter_in name w
press_in _ w = w

abbrev pub double_click_on : Locator → App → App
double_click_on (inside (nth l i) t) w = record w { editing = i }
double_click_on _ w = w

abbrev pub is_there : Option Item → Bool
is_there none = false
is_there (some t) = true

abbrev pub sees : Locator → State → Bool
sees (by_role link name) s = true
sees (by_role checkbox name) s = has_any s.todos
sees (by_role button name) s = s.view.clear_button_shown
sees (css c) s = has_any s.todos
sees (nth l i) s = is_there (get_elem? s.view.shown_todos i)
sees (inside (nth l i) t) s = is_there (get_elem? s.view.shown_todos i)
sees _ s = false

abbrev pub is_done : Option Item → Bool
is_done none = false
is_done (some t) = t.completed

abbrev pub ticks : Locator → State → Bool
ticks (inside (nth l i) t) s = is_done (get_elem? s.view.shown_todos i)
ticks _ s = length (keep_if is_active s.todos) == 0

abbrev pub label_of : Option Item → Option Text
label_of none = none
label_of (some t) = some t.title

abbrev pub reads : Locator → State → Option Text
reads (inside (nth l i) t) s = label_of (get_elem? s.view.shown_todos i)
reads _ s = some (decimal (length (keep_if is_active s.todos)) ++ codes " left")

-- The elements from an index on.
abbrev pub places : Locator → ℕ → List Item → List Locator
places l i [] = []
places l i (t ∷ ts) = nth l i ∷ places l (i + 1) ts

abbrev pub does : (App → App) → Exec App (Unit {0})
does f w = (ok tt, f w)

abbrev pub tells : {A : Type 0} → (State → A) → Exec App A
tells f w = (ok (f w.state), w)

abbrev pub app_page : Playwright
app_page = record {
  World = App;
  Browser = Unit {0};
  Context = Unit {0};
  Page = Unit {0};
  launch = does (λ w. w);
  new_context = λ b. does (λ w. w);
  new_page = λ c. does (λ w. w);
  close_page = λ p. does (λ w. w);
  close_context = λ c. does (λ w. w);
  close_browser = λ b. does (λ w. w);
  is_closed = λ p w. false;
  url = λ p w. base_url ++ route w.state.view.now_showing;
  goto = λ p t. does (λ w. w);
  clear_local_storage = λ p. does (λ w. record w { state = init });
  count = λ p l. tells (λ s. 0);
  all = λ p l. tells (λ s. places l 0 s.view.shown_todos);
  is_visible = λ p l. tells (sees l);
  is_checked = λ p l. tells (ticks l);
  text_content = λ p l. tells (reads l);
  get_attribute = λ p l a. tells (λ s. none);
  click = λ p l. does (click_on l);
  dblclick = λ p l. does (double_click_on l);
  hover = λ p l. does (λ w. w);
  fill = λ p l t. does (λ w. record w { typed = t });
  press = λ p l k. does (press_in l);
  wait_for = λ p l. does (λ w. w);
  accept_next_dialog = λ p. does (λ w. w);
  wait_for_text_change = λ p i t. does (λ w. w);
  click_for_response = λ p f t l w. (ok (record { url = []; method = []; is_ok = true }), w);
  wait_for_dom_settled = λ p t. does (λ w. w);
  console_error = λ t e w. w;
}

-- Arguments that are indices or texts.
pub data Value : Type 0 where
  index : ℕ → Value
  words : Text → Value

abbrev pub index_of : Option Value → ℕ
index_of (some (index i)) = i
index_of _ = 0

abbrev pub words_of : Value → Text
words_of (index i) = decimal i
words_of (words t) = t

abbrev pub values : ArgType
values = record { Arg = Value; as_number = λ v. none; to_text = words_of; as_index = index_of }
