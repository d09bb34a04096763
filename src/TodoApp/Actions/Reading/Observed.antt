-- ===== src/TodoApp/Actions/Reading/Observed.antt =====
-- The replies of `ReadTodo` and `ListTodo` against todo.fizz.
use mathlib.Core.List.{Perm, Pairwise, Mem, mem-cons, not-mem-nil}
use mathlib.Core.Logic.Or
use native.Mathlib.Bridge.{le_prop}
use fizzbee_mbt_examples.Prelude.{
  text_eq, text_eq_iff, ℕ, suc, ◌+◌, ◌≤◌, List, [], ◌∷◌, ◌++◌, some, some_injective, true, false,
  Text, codes, ok, ◌≡◌, refl, sym, ap, ◌∙◌, arith, map, get_elem?, Bool-cases, inl, inr, ◌⊎◌,
  keep_if, if◌then◌else◌,
}
use mathlib.Core.Path.{subst}
use fizzbee_mbt_examples.Prelude.Int.{pos}
use fizzbee_mbt_examples.Js.Strings.{trim, trim_start, trim_end, is_space, includes}
use fizzbee_mbt_examples.Js.Strings.Laws.{IsTrimmed}
use fizzbee_mbt_examples.Js.Sort.Laws.{IsAscending}
use fizzbee_mbt_examples.Browser.{button, by_role, by_test_id, inside, nth, Playwright, ArgType}
use fizzbee_mbt_examples.TodoApp.Spec
use fizzbee_mbt_examples.TodoApp.Spec.{
  Item, State, Result, nothing, one, many, is_live, is_value, step, todo_at,
}
use fizzbee_mbt_examples.TodoApp.Spec.Invariant.{
  IsNumbered, HasValue, todo_at-id, todo_at-value, Reachable, Reachable-IsValid,
}
use fizzbee_mbt_examples.TodoApp.Format.{
  TodoRecord, title_prefix, to_fizz_bee_format, to_fizz_bee_format_list,
}
use fizzbee_mbt_examples.TodoApp.Format.Titles.{get_value_shown}
use fizzbee_mbt_examples.TodoApp.Actions.{
  Reply, undefined, text, argument, todo_card, modal, pin_icon, get_todo_id, is_missing,
}
use fizzbee_mbt_examples.TodoApp.Actions.Safe.{IsAbsent, absent_does_nothing}
use fizzbee_mbt_examples.TodoApp.Actions.Reading.{read_card, action_read_todo, action_list_todo}
use fizzbee_mbt_examples.TodoApp.Actions.Reading.Lists.{
  Todo, record_of, ShowsTodos, list_todo-shown,
}

-- A todo of the specification as the adapter's record, and a result as the adapter's reply.
abbrev pub observed_item : Item → TodoRecord
observed_item t = record {
  id = some (pos t.id);
  value = t.value;
  deleted = t.deleted;
  pinned = t.pinned;
}

abbrev pub observed_result : Result → Reply
observed_result nothing = undefined
observed_result (one t) = text (to_fizz_bee_format (observed_item t))
observed_result (many ts) = text (to_fizz_bee_format_list (map observed_item ts))

-- What a page can show of a todo.
abbrev pub shown_part : Item → Todo
shown_part t = record { id = t.id; value = t.value; pinned = t.pinned }

abbrev pub live : List Item → List Todo
live ts = map shown_part (keep_if is_live ts)

live_above : (n : ℕ) (ts : List Item) → IsNumbered n ts → (u : Todo) → Mem u (live ts) → n ≤ u.id
live_above n [] h u m = absurd (not-mem-nil m)
live_above n (t ∷ ts) (h, hs) u m = elim (Bool-cases t.deleted) [
  | inl d ↦ omega (arith, live_above (n + 1) ts hs u (rw d at m))
  | inr d ↦
      Or.elim le_prop (mem-cons.0 (rw d at m)) (λ e. rw e (omega (arith, h)))
        (λ k. omega (arith, live_above (n + 1) ts hs u k))
]

live-IsAscending : (n : ℕ) (ts : List Item) → IsNumbered n ts → IsAscending (λ t. t.id) (live ts)
live-IsAscending n [] h = Pairwise.nil
live-IsAscending n (t ∷ ts) (h, hs) = elim (Bool-cases t.deleted) [
  | inl d ↦ rw d (live-IsAscending (n + 1) ts hs)
  | inr d ↦ rw d (
      Pairwise.cons (λ u m. omega (arith, live_above (n + 1) ts hs u m))
        (live-IsAscending (n + 1) ts hs))
]

records_of_live :
    (ts : List Item) → map record_of (live ts) ≡ map observed_item (keep_if is_live ts)
records_of_live [] = refl
records_of_live (t ∷ ts) = elim (Bool-cases t.deleted) [
  | inl d ↦ rw d (records_of_live ts)
  | inr d ↦ rw d (ap (λ l. record_of (shown_part t) ∷ l) (records_of_live ts))
]

-- `ListTodo` on a page that shows the todos that are not deleted in a state that todo.fizz reaches,
-- in any order: it returns what the specification's `ListTodo` does, and leaves the world as it is.
pub list_todo-observed :
    (PW : Playwright) (AT : ArgType) (p : PW.Page) (w : PW.World) (args : List AT.Arg) (s : State)
    (shown : List Todo) (r : Result) (t : State)
    → Reachable s
    → ShowsTodos PW p w shown
    → Perm shown (live s.todos)
    → step Spec.list_todo s ≡ some (r, t)
    → action_list_todo PW AT (some p) args w ≡ (ok (observed_result r), w)
unfolding step
list_todo-observed PW AT p w args s shown r t reach h perm e =
    list_todo-shown PW AT p w args shown (live s.todos) h perm
      (live-IsAscending 1 s.todos (Reachable-IsValid reach).numbered)
    ∙ ap (λ l. (ok (text (to_fizz_bee_format_list l)), w)) (records_of_live s.todos)
    ∙ ap (λ (x : Result × State). (ok (observed_result x.0), w)) (some_injective e)

pub value-IsTrimmed : (v : Text) → is_value v ≡ true → IsTrimmed v
unfolding trim_start trim_end is_space
value-IsTrimmed v h = elim (Bool-cases (text_eq v (codes "A"))) [
  | inl e ↦
      subst IsTrimmed (sym ((text_eq_iff v (codes "A")).0 e))
        (record { start = refl; finish = refl })
  | inr e ↦
      subst IsTrimmed (sym ((text_eq_iff v (codes "B")).0 (rw e at h)))
        (record { start = refl; finish = refl })
]

module _ (PW : Playwright) (p : PW.Page) where
  -- The card of a todo is there, and a click on it opens the modal, which shows the todo; the
  -- questions about the modal leave the world alone, and the last click closes it.
  pub record OpensTodo (t : Item) (w w' : PW.World) : Type 0 where
    pub cards : ℕ
    pub clicked : PW.World
    pub opened : PW.World
    pub title : Text
    pub icons : ℕ
    pub cls : Text
    pub counted : PW.count p (todo_card (some (pos t.id))) w ≡ (ok (suc cards), w)
    pub visible : PW.is_visible p (todo_card (some (pos t.id))) w ≡ (ok true, w)
    pub clicks : PW.click p (todo_card (some (pos t.id))) w ≡ (ok tt, clicked)
    pub waits : PW.wait_for p modal clicked ≡ (ok tt, opened)
    pub titled :
        PW.text_content p (inside modal (by_test_id (codes "todo-title"))) opened
        ≡ (ok (some title), opened)
    pub reads : trim title ≡ title_prefix ++ t.value
    pub has_icons : PW.count p pin_icon opened ≡ (ok (suc icons), opened)
    pub classed :
        PW.get_attribute p (nth pin_icon 0) (codes "class") opened ≡ (ok (some cls), opened)
    pub marked : includes cls (codes "bi-pin-fill") ≡ t.pinned
    pub closes : PW.click p (by_role button (0xf659 ∷ [])) opened ≡ (ok tt, w')

  -- A page answers a reader of a todo as its being deleted or not demands.
  abbrev pub ShowsTodo : Item → PW.World → PW.World → Type 0
  ShowsTodo t w w' =
      ((t.deleted ≡ true) × (w ≡ w') × IsAbsent PW p (todo_card (some (pos t.id))) w)
      ⊎ ((t.deleted ≡ false) × OpensTodo t w w')

  present :
      (t : Item) (w w' : PW.World)
      → OpensTodo t w w'
      → is_missing PW p (todo_card (some (pos t.id))) w ≡ (ok false, w)
  unfolding is_missing
  present t w w' h = rw h.counted (ground (arith, h.visible))

  read_card-shown :
      (t : Item) (w w' : PW.World)
      → OpensTodo t w w'
      → HasValue t
      → t.deleted ≡ false
      → read_card PW p (some (pos t.id)) w ≡ (ok (text (to_fizz_bee_format (observed_item t))), w')
  unfolding read_card
  read_card-shown t w w' h value live = rw (
    h.clicks,
    h.waits,
    h.titled,
    h.has_icons,
    h.classed,
    h.closes,
    get_value_shown h.title t.value h.reads (value-IsTrimmed t.value value),
    h.marked,
    live,
  )

module _ (PW : Playwright) (AT : ArgType) (p : PW.Page) (w w' : PW.World) (a : AT.Arg)
    (args : List AT.Arg) (first : get_elem? args 0 ≡ some a) (s : State) (id : ℕ)
    (named : get_todo_id PW AT a ≡ some (pos id)) (reach : Reachable s) where
  deleted-shown :
      (u : Item)
      → get_todo_id PW AT a ≡ some (pos u.id)
      → IsAbsent PW p (todo_card (some (pos u.id))) w
      → action_read_todo PW AT (some p) args w ≡ (ok undefined, w)
  deleted-shown u same absent =
      (absent_does_nothing PW AT p a args w first
        (subst (λ i. IsAbsent PW p (todo_card i) w) (sym same) absent)).0

  opened-shown :
      (u : Item)
      → get_todo_id PW AT a ≡ some (pos u.id)
      → HasValue u
      → u.deleted ≡ false
      → OpensTodo PW p u w w'
      → action_read_todo PW AT (some p) args w
        ≡ (ok (text (to_fizz_bee_format (observed_item u))), w')
  unfolding action_read_todo
  opened-shown u same value live h =
      rw (first, argument)
        (rw (same, present PW p u w w' h) (read_card-shown PW p u w w' h value live))

  read_todo-shown :
      (u : Item)
      → get_todo_id PW AT a ≡ some (pos u.id)
      → HasValue u
      → ShowsTodo PW p u w w'
      → action_read_todo PW AT (some p) args w ≡ (ok (observed_result (Spec.read_result u)), w')
  read_todo-shown u same value shows = elim shows [
    | inl (gone, still, absent) ↦ rw gone (deleted-shown u same absent ∙ rw still)
    | inr (kept, h) ↦
        opened-shown u same value kept h
        ∙ ap (λ b. (ok (observed_result (if b then nothing else one u)), w')) (sym kept)
  ]

  -- `ReadTodo` with the id of a todo of a state that todo.fizz reaches, on a page without its card
  -- if it is deleted, and else with a card that opens a modal which shows it: it returns what the
  -- specification's `ReadTodo` does, and leaves the world that closing the modal leads to.
  pub read_todo-observed :
      (u : Item) (r : Result) (t : State)
      → todo_at s id ≡ some u
      → ShowsTodo PW p u w w'
      → step (Spec.read_todo id) s ≡ some (r, t)
      → action_read_todo PW AT (some p) args w ≡ (ok (observed_result r), w')
  unfolding step
  read_todo-observed u r t there shows e =
      let v = Reachable-IsValid reach in
      let result = ap (λ (x : Result × State). x.0) (some_injective (rw there at e)) in
      read_todo-shown u (named ∙ ap (λ n. some (pos n)) (sym (todo_at-id s id u v there)))
        (todo_at-value s id u v there) shows
      ∙ ap (λ x. (ok (observed_result x), w')) result
