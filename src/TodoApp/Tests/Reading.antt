-- ===== src/TodoApp/Tests/Reading.antt =====
-- A run of todo.fizz, and the replies on pages that show where it leads.
use mathlib.Core.List.Perm
use fizzbee_mbt_examples.Prelude.{
  [], ◌∷◌, Option, none, some, true, false, Text, codes, ok, ◌≡◌, refl, inr,
}
use fizzbee_mbt_examples.Js.Strings.{trim, trim_start, trim_end, is_space}
use fizzbee_mbt_examples.Browser.{Locator, inside}
use fizzbee_mbt_examples.Browser.Fake.{Dom, fake, numbers}
use fizzbee_mbt_examples.TodoApp.Spec.{
  Item, State, create_todo, delete_todo, pin_todo, many, one, step,
}
use fizzbee_mbt_examples.TodoApp.Spec.Invariant.{IsValid, Reachable, Reachable-IsValid}
use fizzbee_mbt_examples.TodoApp.Actions.Reading.{action_read_todo, action_list_todo}
use fizzbee_mbt_examples.TodoApp.Actions.Reading.Observed.{
  observed_result, OpensTodo, list_todo-observed, read_todo-observed,
}
use fizzbee_mbt_examples.TodoApp.Tests.{dom, page_shows, first, second}

abbrev item_a : Item
item_a = record { id = 1; value = codes "A"; deleted = false; pinned = false }

abbrev item_b : Item
item_b = record { id = 2; value = codes "B"; deleted = false; pinned = true }

abbrev item_c : Item
item_c = record { id = 3; value = codes "A"; deleted = true; pinned = false }

abbrev three : State
three = record { todos = item_a ∷ item_b ∷ item_c ∷ []; next_id = 4 }

reached : Reachable three
unfolding step
reached =
    Reachable.next (delete_todo 3)
      (Reachable.next (pin_todo 2)
        (Reachable.next (create_todo (codes "A"))
          (Reachable.next (create_todo (codes "B"))
            (Reachable.next (create_todo (codes "A")) Reachable.start refl) refl)
          refl)
        refl)
      refl

Reachable-IsValid_example : IsValid three
Reachable-IsValid_example = Reachable-IsValid reached

list_todo-observed_example :
    action_list_todo (fake dom) numbers (some tt) [] 0
    ≡ (ok (observed_result (many (item_a ∷ item_b ∷ []))), 0)
unfolding step
list_todo-observed_example =
    list_todo-observed (fake dom) numbers tt 0 [] three (second ∷ first ∷ [])
      (many (item_a ∷ item_b ∷ [])) three reached page_shows (Perm.swap first second []) refl

-- A page with a card for the second todo, and a modal for it.
abbrev modal_text : Locator → Option Text
modal_text (inside m t) = some (codes "Sample Title B ")
modal_text _ = none

abbrev open_dom : Dom
open_dom = record dom {
  count = λ l. 1;
  visible = λ l. true;
  text = modal_text;
  attribute = λ l a. some (codes "bi bi-pin-fill");
}

opens_second : OpensTodo (fake open_dom) tt item_b 0 3
unfolding trim trim_start trim_end is_space
opens_second = record {
  cards = 0;
  clicked = 1;
  opened = 2;
  title = codes "Sample Title B ";
  icons = 0;
  cls = codes "bi bi-pin-fill";
  counted = refl;
  visible = refl;
  clicks = refl;
  waits = refl;
  titled = refl;
  reads = refl;
  has_icons = refl;
  classed = refl;
  marked = refl;
  closes = refl;
}

read_todo-observed_example :
    action_read_todo (fake open_dom) numbers (some tt) (2 ∷ []) 0
    ≡ (ok (observed_result (one item_b)), 3)
unfolding step
read_todo-observed_example =
    read_todo-observed (fake open_dom) numbers tt 0 3 2 (2 ∷ []) refl three 2 refl reached item_b
      (one item_b) three refl (inr (refl, opens_second)) refl
