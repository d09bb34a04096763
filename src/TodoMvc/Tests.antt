-- ===== src/TodoMvc/Tests.antt =====
-- Runs on small pages, and the theorems about the adapters at an instance.
mod App
use fizzbee_mbt_examples.Prelude.{
  [], ◌∷◌, Option, none, some, Bool, true, false, Text, codes, ok, ◌≡◌, refl,
}
use fizzbee_mbt_examples.Js.Strings.{trim, trim_start, trim_end, is_space}
use fizzbee_mbt_examples.Js.Numbers.{decimal}
use fizzbee_mbt_examples.Browser.{Locator, by_test_id, inside, nth}
use fizzbee_mbt_examples.Browser.Fake.{Dom, fake, numbers}
use fizzbee_mbt_examples.TodoMvc.Spec.{
  Item, State, Action, user_toggles_all, user_clears_completed, user_adds_item, user_toggles_item,
  user_switches_filter, completed, active, refresh, step, add_todo, toggle,
}
use fizzbee_mbt_examples.TodoMvc.Spec
use fizzbee_mbt_examples.TodoMvc.Spec.Invariant.{IsValid, Reach, Reach-IsValid}
use fizzbee_mbt_examples.TodoMvc.View.{get_state}
use fizzbee_mbt_examples.TodoMvc.Controller.{action_user_toggles_all, action_user_clears_completed}
use fizzbee_mbt_examples.TodoMvc.Controller.Guards.{guards_agree}
use fizzbee_mbt_examples.TodoMvc.View.Renders.{Renders, observed, get_state-observed}

abbrev milk : Item
milk = record { id = 0; title = codes "milk"; completed = true }

abbrev tea : Item
tea = record { id = 1; title = codes "tea"; completed = false }

-- Two todos, one of them completed, under the filter `Completed`.
abbrev two_todos : State
two_todos = record {
  todos = milk ∷ tea ∷ [];
  next_id = 2;
  view = record {
    now_showing = completed;
    shown_todos = milk ∷ [];
    active_todo_count = 1;
    toggle_all_status = Spec.unchecked;
    clear_button_shown = true;
  };
}

reached : Reach two_todos
unfolding step add_todo toggle refresh
reached =
    Reach.next (user_switches_filter completed)
      (Reach.next (user_toggles_item 0)
        (Reach.next (user_adds_item (codes "tea"))
          (Reach.next (user_adds_item (codes "milk")) Reach.start refl) refl)
        refl)
      refl

Reach-IsValid_example : IsValid two_todos
Reach-IsValid_example = Reach-IsValid reached

abbrev visible : Locator → Bool
visible _ = true

abbrev checked : Locator → Bool
checked (inside l t) = true
checked _ = false

abbrev text : Locator → Option Text
text (inside l t) = some (codes " milk ")
text _ = some (codes "1 item left")

abbrev dom : Dom
dom = record {
  launches = true;
  url = codes "https://demo.playwright.dev/todomvc/#/completed";
  count = λ l. 0;
  all = λ l. nth l 0 ∷ [];
  visible = visible;
  checked = checked;
  text = text;
  attribute = λ l a. none;
}

rendered : Renders (fake dom) tt 0 completed (milk ∷ tea ∷ [])
unfolding decimal trim trim_start trim_end is_space
rendered = record {
  elements = nth (by_test_id (codes "todo-item")) 0 ∷ [];
  rest = codes " item left";
  address = refl;
  listed = refl;
  items = (record { label = codes " milk "; labelled = refl; reads = refl; ticked = refl }, tt);
  footer = refl;
  counted = λ h. refl;
  no_digit = refl;
  toggle_there = refl;
  toggle_checked = λ h. refl;
  clear_there = refl;
}

get_state-observed_example : get_state (fake dom) tt 0 ≡ (ok (observed two_todos.view), 0)
get_state-observed_example = get_state-observed (fake dom) tt 0 two_todos reached rendered

guards_agree_example :
    ((step user_toggles_all two_todos ≡ none
        → action_user_toggles_all (fake dom) numbers tt [] 0 ≡ (ok tt, 0))
      × ((t : State)
          → step user_toggles_all two_todos ≡ some t
          → action_user_toggles_all (fake dom) numbers tt [] 0 ≡ (ok tt, 1)))
    × ((step user_clears_completed two_todos ≡ none
          → action_user_clears_completed (fake dom) numbers tt [] 0 ≡ (ok tt, 0))
        × ((t : State)
            → step user_clears_completed two_todos ≡ some t
            → action_user_clears_completed (fake dom) numbers tt [] 0 ≡ (ok tt, 1)))
guards_agree_example = guards_agree (fake dom) numbers tt 0 [] two_todos reached rendered
