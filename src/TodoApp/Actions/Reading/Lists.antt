-- ===== src/TodoApp/Actions/Reading/Lists.antt =====
-- What `ReadTodo` and `ListTodo` return for a page that shows given todos.
use mathlib.Core.List.{Perm}
use fizzbee_mbt_examples.Prelude.{
  ℕ, ◌+◌, List, [], ◌∷◌, ◌++◌, some, Bool, false, Text, codes, ok, ◌≡◌, ◌≢◌, ◌∙◌, arith, length,
  map, All, append_assoc, append-nil,
}
use fizzbee_mbt_examples.Prelude.Int.{pos}
use fizzbee_mbt_examples.Js.Strings.{trim, includes, split}
use fizzbee_mbt_examples.Js.Strings.Laws.{IsTrimmed, split-Lacks}
use fizzbee_mbt_examples.Js.Numbers.{decimal, to_string}
use fizzbee_mbt_examples.Js.Numbers.RoundTrip.{IsDigit, decimal-IsDigit, parse_int-to_string}
use fizzbee_mbt_examples.Js.Sort.{sort}
use fizzbee_mbt_examples.Js.Sort.Laws.{IsAscending, sort-map, sort_of_perm}
use fizzbee_mbt_examples.Browser.{Locator, by_test_id, inside, nth, Playwright, ArgType}
use fizzbee_mbt_examples.TodoApp.Format.{TodoRecord, title_prefix, to_fizz_bee_format_list}
use fizzbee_mbt_examples.TodoApp.Format.Titles.{get_value_shown}
use fizzbee_mbt_examples.TodoApp.Actions.{text, all_cards}
use fizzbee_mbt_examples.TodoApp.Actions.Reading.{
  id_of_test_id, extract_todo, extract_all, list_cards, action_list_todo,
}

-- A todo that is not deleted, as the specification holds it.
pub record Todo : Type 0 where
  pub id : ℕ
  pub value : Text
  pub pinned : Bool

abbrev pub record_of : Todo → TodoRecord
record_of t = record { id = some (pos t.id); value = t.value; deleted = false; pinned = t.pinned }

pub digits_lack_dash : (s : Text) → All IsDigit s → All (λ c. c ≢ b'-') s
digits_lack_dash [] h = tt
digits_lack_dash (c ∷ s) (h, hs) = ((λ e. omega arith), digits_lack_dash s hs)

-- The id is read back from the test id of a card.
pub id_of_test_id_lem :
    (n : ℕ) → id_of_test_id (codes "todo-card-" ++ to_string (some (pos n))) ≡ some (pos n)
unfolding split to_string
id_of_test_id_lem n =
    rw (split-Lacks (decimal n) b'-' (digits_lack_dash (decimal n) (decimal-IsDigit n)))
      (parse_int-to_string n)

module _ (PW : Playwright) (p : PW.Page) (w : PW.World) where
  -- A card of the page that shows a todo. Asking for its parts leaves the world as it is.
  pub record ShowsCard (card : Locator) (t : Todo) : Type 0 where
    pub title : Text
    pub cls : Text
    pub testid :
        PW.get_attribute p card (codes "data-testid") w
        ≡ (ok (some (codes "todo-card-" ++ to_string (some (pos t.id)))), w)
    pub titled :
        PW.text_content p
          (inside card (by_test_id (codes "todo-title-" ++ to_string (some (pos t.id)))))
          w
        ≡ (ok (some title), w)
    pub reads : trim title ≡ title_prefix ++ t.value
    pub trimmed : IsTrimmed t.value
    pub classed : PW.get_attribute p card (codes "class") w ≡ (ok (some cls), w)
    pub marked : includes cls (codes "pinned") ≡ t.pinned

  -- The cards from the index `i` on show these todos, in their order on the page.
  abbrev pub ShowsFrom : ℕ → List Todo → Type 0
  ShowsFrom i [] = Unit
  ShowsFrom i (t ∷ ts) = ShowsCard (nth all_cards i) t × ShowsFrom (i + 1) ts

  extract_todo-shown :
      (card : Locator) (t : Todo)
      → ShowsCard card t
      → extract_todo PW p card w ≡ (ok (record_of t), w)
  unfolding extract_todo
  extract_todo-shown card t h = rw (
    h.testid,
    id_of_test_id_lem t.id,
    h.titled,
    h.classed,
    get_value_shown h.title t.value h.reads h.trimmed,
    h.marked,
  )

  extract_all-shown :
      (ts : List Todo) (i : ℕ) (results : List TodoRecord)
      → ShowsFrom i ts
      → extract_all PW p (length ts) i results w ≡ (ok (results ++ map record_of ts), w)
  unfolding extract_all
  extract_all-shown [] i results h = rw append-nil
  extract_all-shown (t ∷ ts) i results (here, more) =
      rw (extract_todo-shown (nth all_cards i) t here)
        (extract_all-shown ts (i + 1) (results ++ record_of t ∷ []) more ∙ rw append_assoc)

  -- A page that shows exactly these todos.
  pub record ShowsTodos (ts : List Todo) : Type 0 where
    pub counted : PW.count p all_cards w ≡ (ok (length ts), w)
    pub cards : ShowsFrom 0 ts

  list_cards-shown :
      (ts : List Todo)
      → ShowsTodos ts
      → list_cards PW p w
        ≡ (ok (text (to_fizz_bee_format_list (sort (λ r. r.id) (map record_of ts)))), w)
  unfolding list_cards
  list_cards-shown ts h = rw (h.counted, extract_all-shown ts 0 [] h.cards)

pub Todo-set : IsSet Todo
Todo-set = hlevel

-- `ListTodo` on a page that shows some todos, in any order, as with a pinned one first: it returns
-- the list that the specification's `ListTodo` does, the todos by ascending id, and leaves the
-- world as it is. `live` is the specification's list, whose ids ascend.
pub list_todo-shown :
    (PW : Playwright) (AT : ArgType) (p : PW.Page) (w : PW.World) (args : List AT.Arg)
    (shown live : List Todo)
    → ShowsTodos PW p w shown
    → Perm shown live
    → IsAscending (λ t. t.id) live
    → action_list_todo PW AT (some p) args w
      ≡ (ok (text (to_fizz_bee_format_list (map record_of live))), w)
unfolding action_list_todo
list_todo-shown PW AT p w args shown live h perm asc =
    list_cards-shown PW p w shown h
    ∙ rw (sort-map record_of (λ r. r.id) shown, sort_of_perm (λ t. t.id) Todo-set perm asc)
