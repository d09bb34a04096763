-- ===== src/TodoApp/Format.antt =====
-- examples/todo-app/typescript/fizztests/todo_adapters.ts: the records of the adapter, and the
-- texts that it reads and writes.
pub mod Titles
pub mod Injective
use fizzbee_mbt_examples.Prelude.{
  List, [], ◌∷◌, ◌++◌, Bool, true, false, Text, codes, map, length, drop, if◌then◌else◌,
}
use fizzbee_mbt_examples.Js.Strings.{trim, starts_with, join}
use fizzbee_mbt_examples.Js.Numbers.{Number, to_string}

pub record TodoRecord : Type 0 where
  pub id : Number
  pub value : Text
  pub deleted : Bool
  pub pinned : Bool

abbrev pub title_prefix : Text
title_prefix = codes "Sample Title "

abbrev pub description_prefix : Text
description_prefix = codes "Some Description "

-- `getValueFromTitle`
unfoldable pub get_value_from_title : Text → Text
get_value_from_title original_title =
    let title = trim original_title in
    if starts_with title title_prefix then trim (drop (length title_prefix) title) else title

abbrev pub bool_text : Bool → Text
bool_text true = codes "True"
bool_text false = codes "False"

abbrev pub sorted_entries : TodoRecord → List (Text × Text)
sorted_entries r =
    (codes "deleted", bool_text r.deleted)
    ∷ (codes "id", to_string r.id)
    ∷ (codes "pinned", bool_text r.pinned)
    ∷ (codes "value", b'"' ∷ (r.value ++ b'"' ∷ []))
    ∷ []

abbrev pub entry_text : Text × Text → Text
entry_text (key, value) = key ++ (codes " = " ++ value)

-- `toFizzBeeFormat`
unfoldable pub to_fizz_bee_format : TodoRecord → Text
to_fizz_bee_format r =
    codes "record(" ++ (join (map entry_text (sorted_entries r)) (codes ", ") ++ codes ")")

-- `toFizzBeeFormatList`
unfoldable pub to_fizz_bee_format_list : List TodoRecord → Text
to_fizz_bee_format_list records =
    codes "[" ++ (join (map to_fizz_bee_format records) (codes ", ") ++ codes "]")
