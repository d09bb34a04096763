-- ===== src/TodoMvc/View/Renders.antt =====
-- What `getState` returns for a page that shows given todos under a filter.
use fizzbee_mbt_examples.Prelude.{
  keep_if, ℕ, suc, List, [], ◌∷◌, ◌++◌, some, true, false, Text, codes, ok, ◌≡◌, ◌≢◌, refl, ap, ◌∙◌,
  arith, ltb, ◌==◌, length, map, All, if◌then◌else◌, append_assoc, append-nil,
}
use fizzbee_mbt_examples.Prelude.Int.{pos}
use fizzbee_mbt_examples.Js.Strings.{trim}
use fizzbee_mbt_examples.Js.Numbers.{decimal}
use fizzbee_mbt_examples.Js.Numbers.RoundTrip.{
  IsDigit, decimal-IsDigit, decimal-ne-nil, parse_int-decimal,
}
use fizzbee_mbt_examples.Browser.{Locator, css, inside, Playwright}
use fizzbee_mbt_examples.TodoMvc.Spec
use fizzbee_mbt_examples.TodoMvc.Spec.{
  FilterState, all, active, completed, ToggleAllStatus, not_shown, unchecked, checked, Item, State,
  shown, is_active, status, has_any, refresh,
}
use fizzbee_mbt_examples.TodoMvc.Spec.Invariant.{Reach, Reach-IsValid}
use fizzbee_mbt_examples.TodoMvc.View.{
  ShownTodo, ViewState, todo_item, toggle_todo, todo_count, toggle_all, clear_completed,
  get_now_showing, is_digit, digit_run, match_digits, match_count, parse_count, read_item,
  read_items, get_shown_todos, get_active_todo_count, get_toggle_all_status, get_clear_button_shown,
  get_state,
}

abbrev pub base_url : Text
base_url = codes "https://demo.playwright.dev/todomvc/#/"

-- The page's route for a filter, and the names of the specification's values.
abbrev pub route : FilterState → Text
route all = []
route active = codes "active"
route completed = codes "completed"

abbrev pub filter_name : FilterState → Text
filter_name all = codes "All"
filter_name active = codes "Active"
filter_name completed = codes "Completed"

abbrev pub status_name : ToggleAllStatus → Text
status_name not_shown = codes "NotShown"
status_name unchecked = codes "Unchecked"
status_name checked = codes "Checked"

abbrev pub show_item : Item → ShownTodo
show_item t = record { title = t.title; completed = t.completed }

-- The specification's view, as the adapter reports it.
abbrev pub observed : Spec.View → ViewState
observed v = record {
  now_showing = filter_name v.now_showing;
  shown_todos = map show_item v.shown_todos;
  active_todo_count = some (pos v.active_todo_count);
  toggle_all_status = status_name v.toggle_all_status;
  clear_button_shown = v.clear_button_shown;
}

abbrev pub NoDigit : Text → Type 0
NoDigit [] = Unit
NoDigit (c ∷ s) = is_digit c ≡ false

digit_run-append : (u rest : Text) → All IsDigit u → NoDigit rest → digit_run (u ++ rest) ≡ u
unfolding digit_run
digit_run-append [] [] h n = refl
digit_run-append [] (c ∷ rest) h n = rw n
digit_run-append (c ∷ u) rest (h, hs) n = ground (arith, digit_run-append u rest hs n)

match_digits-append :
    (u rest : Text) → u ≢ [] → All IsDigit u → NoDigit rest → match_digits (u ++ rest) ≡ some u
match_digits-append [] rest ne h n = absurd (ne refl)
match_digits-append (c ∷ u) rest ne (h, hs) n =
    unfold match_digits in ground (arith, digit_run-append u rest hs n)

-- The count at the start of a text is read, whatever follows it that is no digit.
parse_count-decimal :
    (n : ℕ) (rest : Text)
    → NoDigit rest
    → parse_count (match_count (some (decimal n ++ rest))) ≡ some (pos n)
parse_count-decimal n rest h =
    rw (match_digits-append (decimal n) rest (decimal-ne-nil n) (decimal-IsDigit n) h)
      (parse_int-decimal n)

-- Each filter's address is read as the filter's name.
get_now_showing-route : (f : FilterState) → get_now_showing (base_url ++ route f) ≡ filter_name f
unfolding get_now_showing
get_now_showing-route all = refl
get_now_showing-route active = refl
get_now_showing-route completed = refl

status_name-suc :
    (total n : ℕ)
    → (if n == 0 then codes "Checked" else codes "Unchecked") ≡ status_name (status (suc total) n)
status_name-suc total n = ground arith

module _ (PW : Playwright) (p : PW.Page) (w : PW.World) where
  -- An element that shows an item: its label, trimmed, is the title, and its box is checked if the
  -- item is completed. Asking for them leaves the world as it is.
  pub record ShowsItem (element : Locator) (t : Item) : Type 0 where
    pub label : Text
    pub labelled : PW.text_content p (inside element (css (codes "label"))) w ≡ (ok (some label), w)
    pub reads : trim label ≡ t.title
    pub ticked : PW.is_checked p (inside element toggle_todo) w ≡ (ok t.completed, w)

  abbrev pub ShowsItems : List Locator → List Item → Type 0
  ShowsItems [] [] = Unit
  ShowsItems (e ∷ es) (t ∷ ts) = ShowsItem e t × ShowsItems es ts
  ShowsItems _ _ = ⊥

  abbrev actives : List Item → ℕ
  actives todos = length (keep_if is_active todos)

  -- A page of the application with these todos and this filter.
  pub record Renders (f : FilterState) (todos : List Item) : Type 0 where
    pub elements : List Locator
    pub rest : Text
    pub address : PW.url p w ≡ base_url ++ route f
    pub listed : PW.all p todo_item w ≡ (ok elements, w)
    pub items : ShowsItems elements (shown f todos)
    pub footer : PW.is_visible p todo_count w ≡ (ok (has_any todos), w)
    pub counted :
        has_any todos ≡ true
        → PW.text_content p todo_count w
          ≡ (ok (some (decimal (length (keep_if is_active todos)) ++ rest)), w)
    pub no_digit : NoDigit rest
    pub toggle_there : PW.is_visible p toggle_all w ≡ (ok (has_any todos), w)
    pub toggle_checked :
        has_any todos ≡ true
        → PW.is_checked p toggle_all w ≡ (ok (length (keep_if is_active todos) == 0), w)
    pub clear_there :
        PW.is_visible p clear_completed w
        ≡ (ok (ltb (length (keep_if is_active todos)) (length todos)), w)

  read_item-shown :
      (e : Locator) (t : Item) → ShowsItem e t → read_item PW p e w ≡ (ok (show_item t), w)
  unfolding read_item
  read_item-shown e t h = rw (h.labelled, h.ticked, h.reads)

  read_items-shown :
      (es : List Locator) (ts : List Item) (done : List ShownTodo)
      → ShowsItems es ts
      → read_items PW p es done w ≡ (ok (done ++ map show_item ts), w)
  unfolding read_items
  read_items-shown [] [] done h = rw append-nil
  read_items-shown [] (t ∷ ts) done h = absurd h
  read_items-shown (e ∷ es) [] done h = absurd h
  read_items-shown (e ∷ es) (t ∷ ts) done (h, hs) =
      rw (read_item-shown e t h)
        (read_items-shown es ts (done ++ show_item t ∷ []) hs ∙ rw append_assoc)

  get_active_todo_count-shown :
      (f : FilterState) (todos : List Item)
      → Renders f todos
      → get_active_todo_count PW p w ≡ (ok (some (pos (length (keep_if is_active todos)))), w)
  unfolding get_active_todo_count
  get_active_todo_count-shown f [] h = rw h.footer
  get_active_todo_count-shown f (t ∷ ts) h =
      rw h.footer
        (rw (h.counted refl) (ap (λ c. (ok c, w)) (parse_count-decimal _ h.rest h.no_digit)))

  get_toggle_all_status-shown :
      (f : FilterState) (todos : List Item)
      → Renders f todos
      → get_toggle_all_status PW p w
        ≡ (ok (status_name (status (length todos) (length (keep_if is_active todos)))), w)
  unfolding get_toggle_all_status
  get_toggle_all_status-shown f [] h = rw h.toggle_there
  get_toggle_all_status-shown f (t ∷ ts) h =
      rw h.toggle_there
        (rw (h.toggle_checked refl) (ap (λ c. (ok c, w)) (status_name-suc (length ts) _)))

  module _ (f : FilterState) (todos : List Item) (h : Renders f todos) where
    get_shown_todos-shown : get_shown_todos PW p w ≡ (ok (map show_item (shown f todos)), w)
    unfolding get_shown_todos
    get_shown_todos-shown = rw h.listed (read_items-shown h.elements (shown f todos) [] h.items)

    get_clear_button_shown-shown :
        get_clear_button_shown PW p w
        ≡ (ok (ltb (length (keep_if is_active todos)) (length todos)), w)
    unfolding get_clear_button_shown
    get_clear_button_shown-shown = rw h.clear_there

    get_state-shown : get_state PW p w ≡ (
      ok (record {
        now_showing = filter_name f;
        shown_todos = map show_item (shown f todos);
        active_todo_count = some (pos (length (keep_if is_active todos)));
        toggle_all_status = status_name (status (length todos) (length (keep_if is_active todos)));
        clear_button_shown = ltb (length (keep_if is_active todos)) (length todos);
      }),
      w,
    )
    unfolding get_state
    get_state-shown = rw (
      get_shown_todos-shown,
      get_active_todo_count-shown f todos h,
      get_toggle_all_status-shown f todos h,
      get_clear_button_shown-shown,
      h.address,
      get_now_showing-route f,
    )

-- `getState` on a page that renders the todos and the filter of a state that the specification
-- reaches: it returns exactly that state's view, and leaves the world as it is.
pub get_state-observed :
    (PW : Playwright) (p : PW.Page) (w : PW.World) (s : State)
    → Reach s
    → Renders PW p w s.view.now_showing s.todos
    → get_state PW p w ≡ (ok (observed s.view), w)
unfolding refresh
get_state-observed PW p w s r h =
    get_state-shown PW p w s.view.now_showing s.todos h
    ∙ ap (λ (t : State). (ok (observed t.view), w)) (Reach-IsValid r).synced
