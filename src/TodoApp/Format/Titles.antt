-- ===== src/TodoApp/Format/Titles.antt =====
-- `getValueFromTitle` of todo_adapters.ts on the titles that the actions fill in.
use fizzbee_mbt_examples.Prelude.{[], ◌++◌, Text, ◌≡◌, ◌≢◌, refl, ◌∙◌}
use fizzbee_mbt_examples.Js.Strings.{trim, trim_start, is_space}
use fizzbee_mbt_examples.Js.Strings.Laws.{IsTrimmed, IsTrimmed-append, trim_of_IsTrimmed}
use fizzbee_mbt_examples.TodoApp.Format.{title_prefix, get_value_from_title}

-- A title that, trimmed, is the prefix and a value, gives the value without white space around it.
get_value-trim :
    (shown v : Text) → trim shown ≡ title_prefix ++ v → get_value_from_title shown ≡ trim v
unfolding get_value_from_title
get_value-trim shown v h = rw h

-- The value of a title as the page shows it: with white space round it or not, the prefix and a
-- value that has none at its ends give the value back.
pub get_value_shown :
    (shown v : Text) → trim shown ≡ title_prefix ++ v → IsTrimmed v → get_value_from_title shown ≡ v
get_value_shown shown v h t = get_value-trim shown v h ∙ trim_of_IsTrimmed v t

-- The title that `CreateTodo` and `UpdateTodo` fill in for a value gives the value back, if it is
-- not empty and has no white space at its ends.
pub get_value_written :
    (v : Text) → v ≢ [] → IsTrimmed v → get_value_from_title (title_prefix ++ v) ≡ v
unfolding trim_start is_space
get_value_written v ne t =
    get_value_shown (title_prefix ++ v) v
      (trim_of_IsTrimmed _ (IsTrimmed-append title_prefix v (cc) ne refl t.finish)) t
