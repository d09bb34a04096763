-- ===== src/TodoApp/Tests.antt =====
-- Runs of the adapter on small pages, and the theorems about it at an instance.
mod Reading
mod Runner
mod App
use mathlib.Core.List.{Pairwise, Pairwise-singleton, mem-singleton, Mem}
use mathlib.Core.List.Perm
use fizzbee_mbt_examples.Prelude.{
  ℕ, zero, suc, ◌+◌, ◌<◌, List, [], ◌∷◌, ◌++◌, Option, none, some, Bool, true, false, Text, codes,
  text_eq, ok, throw, Outcome, Exec, ◌≡◌, ◌≢◌, refl, inl, inr, ◌⊎◌, arith, map, length,
  if◌then◌else◌,
}
use fizzbee_mbt_examples.Prelude.Int.{pos}
use fizzbee_mbt_examples.Js.Strings.{trim, trim_start, trim_end, is_space}
use fizzbee_mbt_examples.Js.Strings.Laws.{IsTrimmed}
use fizzbee_mbt_examples.Js.Numbers.{decimal, to_string, parse_int}
use fizzbee_mbt_examples.Js.Sort.Laws.{IsAscending}
use fizzbee_mbt_examples.Browser.{Locator, css, inside, nth}
use fizzbee_mbt_examples.Browser.Fake.{Dom, fake, numbers, acts}
use fizzbee_mbt_examples.TodoApp.Format.{
  title_prefix, get_value_from_title, to_fizz_bee_format, to_fizz_bee_format_list,
}
use fizzbee_mbt_examples.TodoApp.Format.Titles.{get_value_written}
use fizzbee_mbt_examples.TodoApp.Actions.{
  undefined, text, action_update_todo, action_delete_todo, action_pin_todo, action_un_pin_todo,
}
use fizzbee_mbt_examples.TodoApp.Actions.Safe.{changes_never_reject, absent_does_nothing}
use fizzbee_mbt_examples.TodoApp.Actions.Reading.{id_of_test_id, action_read_todo, action_list_todo}
use fizzbee_mbt_examples.TodoApp.Actions.Reading.Lists.{
  Todo, Todo-set, record_of, ShowsTodos, id_of_test_id_lem, list_todo-shown,
}
use fizzbee_mbt_examples.TodoApp.Lifecycle.{Sqlite, new_role, delete_rows, clear_todos, init}
use fizzbee_mbt_examples.TodoApp.Lifecycle.Reuse.{init_after_failed_launch}

formatted :
    to_fizz_bee_format_list
      (map record_of (record { id = 12; value = codes "A"; pinned = false } ∷ []))
    ≡ codes "[record(deleted = False, id = 12, pinned = False, value = \"A\")]"
unfolding to_fizz_bee_format to_fizz_bee_format_list to_string decimal
formatted = refl

read_title : get_value_from_title (codes " \n Sample Title B ") ≡ codes "B"
unfolding get_value_from_title trim trim_start trim_end is_space
read_title = refl

not_a_number :
    (parse_int (codes " -17px") ≡ some (fizzbee_mbt_examples.Prelude.Int.negsuc 16))
    × (parse_int (codes "px") ≡ none)
    × (parse_int (codes "0x1F") ≡ some (pos 31))
unfolding parse_int trim_start is_space
not_a_number = (refl, refl, refl)

value-IsTrimmed : IsTrimmed (codes "A")
unfolding trim_start trim_end is_space
value-IsTrimmed = record { start = refl; finish = refl }

get_value_written_example : get_value_from_title (title_prefix ++ codes "A") ≡ codes "A"
get_value_written_example = get_value_written (codes "A") (cc) value-IsTrimmed

twelve_read : id_of_test_id (codes "todo-card-" ++ to_string (some (pos 12))) ≡ some (pos 12)
twelve_read = id_of_test_id_lem 12

abbrev first : Todo
first = record { id = 1; value = codes "A"; pinned = false }

abbrev second : Todo
second = record { id = 2; value = codes "B"; pinned = true }

-- A page that shows the second todo, which is pinned, above the first.
abbrev card_attribute : Locator → Text → Option Text
card_attribute (nth l zero) a =
    if text_eq a (codes "class") then some (codes "card pinned") else some (codes "todo-card-2")
card_attribute (nth l (suc i)) a =
    if text_eq a (codes "class") then some (codes "card") else some (codes "todo-card-1")
card_attribute _ a = none

abbrev card_title : Locator → Option Text
card_title (inside (nth l zero) t) = some (codes " Sample Title B\n")
card_title (inside (nth l (suc i)) t) = some (codes "Sample Title A")
card_title _ = none

abbrev card_count : Locator → ℕ
card_count (css s) = 2
card_count _ = 0

abbrev dom : Dom
dom = record {
  launches = false;
  url = [];
  count = card_count;
  all = λ l. [];
  visible = λ l. false;
  checked = λ l. false;
  text = card_title;
  attribute = card_attribute;
}

page_shows : ShowsTodos (fake dom) tt 0 (second ∷ first ∷ [])
unfolding to_string decimal trim trim_start trim_end is_space
page_shows = record {
  counted = refl;
  cards = (
    record {
      title = codes " Sample Title B\n";
      cls = codes "card pinned";
      testid = refl;
      titled = refl;
      reads = refl;
      trimmed = record { start = refl; finish = refl };
      classed = refl;
      marked = refl;
    },
    (
      record {
        title = codes "Sample Title A";
        cls = codes "card";
        testid = refl;
        titled = refl;
        reads = refl;
        trimmed = record { start = refl; finish = refl };
        classed = refl;
        marked = refl;
      },
      tt,
    ),
  );
}

below_first : (t : Todo) → Mem t (second ∷ []) → 1 < t.id
below_first t m = rw ((mem-singleton Todo-set).0 m) (omega arith)

ids_ascend : IsAscending (λ t. t.id) (first ∷ second ∷ [])
ids_ascend = Pairwise.cons (λ t m. below_first t m) (Pairwise-singleton _ second)

list_todo-shown_example :
    action_list_todo (fake dom) numbers (some tt) [] 0
    ≡ (ok (text (to_fizz_bee_format_list (map record_of (first ∷ second ∷ [])))), 0)
list_todo-shown_example =
    list_todo-shown (fake dom) numbers tt 0 [] (second ∷ first ∷ []) (first ∷ second ∷ [])
      page_shows (Perm.swap first second []) ids_ascend

changes_never_reject_example :
    ((action_update_todo (fake dom) numbers none [] 0).0 ≡ ok undefined)
    × ((action_delete_todo (fake dom) numbers none [] 0).0 ≡ ok undefined)
    × ((action_pin_todo (fake dom) numbers none [] 0).0 ≡ ok undefined)
    × ((action_un_pin_todo (fake dom) numbers none [] 0).0 ≡ ok undefined)
changes_never_reject_example = changes_never_reject (fake dom) numbers none [] 0

absent_does_nothing_example :
    (action_read_todo (fake dom) numbers (some tt) (5 ∷ []) 0 ≡ (ok undefined, 0))
    × (action_update_todo (fake dom) numbers (some tt) (5 ∷ []) 0 ≡ (ok undefined, 0))
    × (action_delete_todo (fake dom) numbers (some tt) (5 ∷ []) 0 ≡ (ok undefined, 0))
    × (action_pin_todo (fake dom) numbers (some tt) (5 ∷ []) 0 ≡ (ok undefined, 0))
    × (action_un_pin_todo (fake dom) numbers (some tt) (5 ∷ []) 0 ≡ (ok undefined, 0))
absent_does_nothing_example = absent_does_nothing (fake dom) numbers tt 5 (5 ∷ []) 0 refl (inl refl)

-- A database that is locked or not: a statement then throws.
abbrev execute : Bool → Exec ℕ (Unit {0})
execute true n = (throw (codes "database is locked"), n)
execute false n = (ok tt, n + 1)

abbrev database : Bool → Sqlite ℕ
database locked = record {
  Db = Unit {0};
  connect = λ path. acts;
  pragma = λ db s. acts;
  run = λ db s. execute locked;
  close = λ db. acts;
}

abbrev opens : Dom
opens = record dom { launches = true }

init_after_failed_launch_example :
    ((init (fake dom) (database false) (record { role = none; world = 0 })).0
      ≡ throw (codes "no browser"))
    × ((init (fake dom) (database false) (record { role = none; world = 0 })).1.role
        ≡ some (new_role (fake dom) (database false)))
    × (init
          (fake dom)
          (database false)
          (init (fake dom) (database false) (record { role = none; world = 0 })).1
        ≡ (ok tt, (init (fake dom) (database false) (record { role = none; world = 0 })).1))
unfolding clear_todos delete_rows
init_after_failed_launch_example =
    init_after_failed_launch (fake dom) (database false) 0 (codes "no browser") refl refl
