-- ===== src/TodoApp/Tests/App.antt =====
-- An application that does as todo.fizz says, behind the operations of the browser: the page is
-- drawn from a state of the specification.
mod Elements
mod Conforms
mod Sessions
use fizzbee_mbt_examples.Prelude.{
  ℕ, zero, suc, ◌+◌, List, [], ◌∷◌, ◌++◌, Option, none, some, Bool, true, false, not, ◌||◌, Text,
  codes, ok, throw, Outcome, Exec, if◌then◌else◌, text_eq, get_elem?, length, ◌==◌, bit,
}
use fizzbee_mbt_examples.Prelude.Int.{pos, negsuc}
use fizzbee_mbt_examples.Js.Numbers.{Number, decimal}
use fizzbee_mbt_examples.Browser.{
  AriaRole, Locator, by_role, by_test_id, css, inside, nth, Response, Playwright, ArgType,
}
use fizzbee_mbt_examples.TodoApp.Spec.{
  Item, State, Action, create_todo, update_todo, delete_todo, pin_todo, un_pin_todo, Result, step,
  todo_at,
}
use fizzbee_mbt_examples.TodoApp.Format.{title_prefix, description_prefix}
use fizzbee_mbt_examples.TodoApp.Actions.Reading.{id_of_test_id}
use fizzbee_mbt_examples.TodoApp.Actions.Reading.Lists.{Todo}
use fizzbee_mbt_examples.TodoApp.Actions.Reading.Observed.{live}
use fizzbee_mbt_examples.TodoApp.Conforms.{id_text}

-- `typed` is the value in the boxes, `current` the todo that the form or the modal shows, and
-- `page_open` and `running` tell whether the page is open and the browser is running.
pub record App : Type 0 where
  pub state : State
  pub typed : Text
  pub current : ℕ
  pub page_open : Bool
  pub running : Bool

-- An action, if the specification allows it.
abbrev pub follow : Option (Result × State) → App → App
follow none w = w
follow (some (r, t)) w = record w { state = t }

unfoldable pub act : Action → App → App
act a w = follow (step a w.state) w

abbrev pub nat_of : Number → ℕ
nat_of (some (pos n)) = n
nat_of _ = 0

-- The id at the end of a test id, and its first letter, which tells the elements apart.
abbrev pub id_at : Text → ℕ
id_at t = nat_of (id_of_test_id t)

abbrev pub letter : Text → ℕ
letter [] = 0
letter (c ∷ t) = c

-- What is behind a prefix.
abbrev pub strip : Text → Text → Text
strip [] t = t
strip (c ∷ p) [] = []
strip (c ∷ p) (d ∷ t) = strip p t

abbrev pub click_named : ℕ → ℕ → App → App
click_named c id w =
    if c == b'd'
    then act (delete_todo id) w
    else if c == b'u'
    then act (un_pin_todo id) w
    else record w { current = id }

abbrev pub click_button : Text → App → App
click_button name w =
    if text_eq name (codes "Add")
    then act (create_todo w.typed) w
    else if text_eq name (codes "Update")
    then act (update_todo w.current w.typed) w
    else w

abbrev pub click_on : Locator → App → App
click_on (by_role r name) w = click_button name w
click_on (by_test_id t) w = click_named (letter t) (id_at t) w
click_on _ w = w

abbrev pub fill_in : Locator → Text → App → App
fill_in (by_role r name) t w =
    if text_eq name (codes "Content...")
    then record w { typed = strip description_prefix t }
    else if text_eq name (codes "Take a note...")
    then record w { typed = strip title_prefix t }
    else w
fill_in _ t w = w

-- The button to pin sends a request to the server, whose response says what it was.
abbrev pub pin_response : Locator → Response
pin_response (by_test_id t) = record {
  url = codes "/todos/" ++ (id_text (id_at t) ++ codes "/pin");
  method = codes "PATCH";
  is_ok = true;
}
pin_response _ = record { url = []; method = []; is_ok = false }

abbrev pub pin_on : Locator → App → App
pin_on (by_test_id t) w = act (pin_todo (id_at t)) w
pin_on _ w = w

abbrev pub is_there : Option Item → Bool
is_there none = false
is_there (some t) = not t.deleted

abbrev pub has_pin : Option Item → Bool
has_pin none = false
has_pin (some t) = t.pinned

abbrev pub counts_named : ℕ → ℕ → State → ℕ
counts_named c id s =
    if c == b't'
    then bit (is_there (todo_at s id))
    else if c == b'u'
    then bit (has_pin (todo_at s id))
    else 1

abbrev pub counts : Locator → State → ℕ
counts (css c) s = length (live s.todos)
counts (by_test_id t) s = counts_named (letter t) (id_at t) s
counts _ s = 1

abbrev pub title_of : Option Todo → Option Text
title_of none = none
title_of (some t) = some (title_prefix ++ t.value)

abbrev pub title_at : Option Item → Option Text
title_at none = none
title_at (some t) = some (title_prefix ++ t.value)

abbrev pub reads : Locator → App → Option Text
reads (css c) w = some []
reads (inside (nth l i) t) w = title_of (get_elem? (live w.state.todos) i)
reads _ w = title_at (todo_at w.state w.current)

abbrev pub class_if : Bool → Text → Option Text
class_if true name = some name
class_if false name = some []

abbrev pub card_attribute : Option Todo → Text → Option Text
card_attribute none a = none
card_attribute (some t) a =
    if text_eq a (codes "data-testid")
    then some (codes "todo-card-" ++ id_text t.id)
    else class_if t.pinned (codes "pinned")

abbrev pub attribute : Locator → Text → App → Option Text
attribute (nth (css c) i) a w = card_attribute (get_elem? (live w.state.todos) i) a
attribute _ a w = class_if (has_pin (todo_at w.state w.current)) (codes "bi-pin-fill")

abbrev pub does : (App → App) → Exec App (Unit {0})
does f w = (ok tt, f w)

abbrev pub tells : {A : Type 0} → (App → A) → Exec App A
tells f w = (ok (f w), w)

abbrev pub app_page : Playwright
app_page = record {
  World = App;
  Browser = Unit {0};
  Context = Unit {0};
  Page = Unit {0};
  launch = does (λ w. record w { running = true });
  new_context = λ b. does (λ w. w);
  new_page = λ c. does (λ w. record w { page_open = true });
  close_page = λ p. does (λ w. record w { page_open = false });
  close_context = λ c. does (λ w. w);
  close_browser = λ b. does (λ w. record w { running = false });
  is_closed = λ p w. not w.page_open;
  url = λ p w. [];
  goto = λ p t. does (λ w. w);
  clear_local_storage = λ p. does (λ w. w);
  count = λ p l. tells (λ w. counts l w.state);
  all = λ p l. tells (λ w. []);
  is_visible = λ p l. tells (λ w. true);
  is_checked = λ p l. tells (λ w. false);
  text_content = λ p l. tells (reads l);
  get_attribute = λ p l a. tells (attribute l a);
  click = λ p l. does (click_on l);
  dblclick = λ p l. does (λ w. w);
  hover = λ p l. does (λ w. w);
  fill = λ p l t. does (fill_in l t);
  press = λ p l k. does (λ w. w);
  wait_for = λ p l. does (λ w. w);
  accept_next_dialog = λ p. does (λ w. w);
  wait_for_text_change = λ p i t. does (λ w. w);
  click_for_response = λ p f t l w. (ok (pin_response l), pin_on l w);
  wait_for_dom_settled = λ p t. does (λ w. w);
  console_error = λ t e w. w;
}

-- Arguments that are numbers or texts.
pub data Value : Type 0 where
  number : ℕ → Value
  words : Text → Value

abbrev pub number_of : Value → Option Number
number_of (number n) = some (some (pos n))
number_of (words t) = none

abbrev pub words_of : Value → Text
words_of (number n) = decimal n
words_of (words t) = t

abbrev pub values : ArgType
values = record { Arg = Value; as_number = number_of; to_text = words_of; as_index = λ v. 0 }
