-- ===== src/TodoApp/Tests/App/Elements.antt =====
-- What the application shows of a state, and what its elements do.

use mathlib.Core.Path.{subst}
use fizzbee_mbt_examples.Prelude.{
  none, Option, ℕ, suc, ◌+◌, List, [], ◌∷◌, ◌++◌, some, Bool, true, false, not, Text, codes, ok,
  ◌≡◌, ◌≢◌, refl, sym, ap, ◌∙◌, arith, get_elem?, All, Bool-cases, inl, inr, append-nil, bit,
}
use fizzbee_mbt_examples.Js.Strings.{trim, trim_start, is_space, includes, starts_with, split}
use fizzbee_mbt_examples.Js.Strings.Laws.{
  IsTrimmed-append, trim_of_IsTrimmed, starts_with-append, split-Lacks,
}
use fizzbee_mbt_examples.Js.Numbers.{decimal, to_string}
use fizzbee_mbt_examples.Js.Numbers.RoundTrip.{decimal-IsDigit, parse_int-to_string}
use fizzbee_mbt_examples.Browser.{Locator}
use fizzbee_mbt_examples.TodoApp.Spec.{
  Item, State, Action, pin_todo, un_pin_todo, Result, step, todo_at, is_value,
}
use fizzbee_mbt_examples.TodoApp.Spec.Invariant.{HasValue, Reachable, Reachable-IsValid}
use fizzbee_mbt_examples.TodoApp.Spec.Results.{un_pin_todo-same}
use fizzbee_mbt_examples.TodoApp.Format.{title_prefix}
use fizzbee_mbt_examples.TodoApp.Actions.Reading.Lists.{
  Todo, ShowsTodos, ShowsFrom, digits_lack_dash,
}
use fizzbee_mbt_examples.TodoApp.Actions.Reading.Observed.{live, value-IsTrimmed}
use fizzbee_mbt_examples.TodoApp.Conforms.{Hovers, Updates, Pins, MayUnPin, element, id_text}
use fizzbee_mbt_examples.TodoApp.Tests.App.{
  App, act, follow, id_at, click_on, title_of, card_attribute, class_if, app_page, pin_response,
}

pub record Shows (s : State) (w : App) : Type 0 where
  pub state : w.state ≡ s
  pub reached : Reachable s
  pub shown : w.page_open ≡ true

follow-page_open : (o : Option (Result × State)) (w : App) → (follow o w).page_open ≡ w.page_open
follow-page_open none w = refl
follow-page_open (some (r, t)) w = refl

act-page_open : (a : Action) (w : App) → (act a w).page_open ≡ w.page_open
unfolding act
act-page_open a w = follow-page_open (step a w.state) w

act-Shows :
    (a : Action) (s t : State) (r : Result) (w : App)
    → Shows s w
    → step a s ≡ some (r, t)
    → Shows t (act a w)
unfolding act
act-Shows a s t r w h e = record {
  state = ap (λ o. (follow o w).state) (ap (step a) h.state ∙ e);
  reached = Reachable.next a h.reached e;
  shown = act-page_open a w ∙ h.shown;
}

-- The ids of the elements.
pub ids :
    (n : ℕ)
    → (id_at (codes "todo-card-" ++ id_text n) ≡ n)
      × (id_at (codes "edit-todo-" ++ id_text n) ≡ n)
      × (id_at (codes "delete-todo-" ++ id_text n) ≡ n)
      × (id_at (codes "pin-todo-" ++ id_text n) ≡ n)
      × (id_at (codes "unpin-todo-" ++ id_text n) ≡ n)
unfolding split to_string
ids n =
    rw
      (
        split-Lacks (decimal n) b'-' (digits_lack_dash (decimal n) (decimal-IsDigit n)),
        parse_int-to_string n,
      )
      (refl, refl, refl, refl, refl)

includes_self : (t : Text) → includes t t ≡ true
includes_self [] = refl
includes_self (c ∷ t) =
    rw
      (subst (λ x. starts_with x (c ∷ t) ≡ true) (append-nil (c ∷ t))
        (starts_with-append (c ∷ t) []))
      refl

-- What the page shows of a value.
value_is_there : (v : Text) → is_value v ≡ true → v ≢ []
value_is_there [] h e = absurd (cc h)
value_is_there (c ∷ v) h e = absurd (cc e)

pub title-IsTrimmed : (v : Text) → is_value v ≡ true → trim (title_prefix ++ v) ≡ title_prefix ++ v
unfolding trim_start is_space
title-IsTrimmed v h =
    let t = value-IsTrimmed v h in
    trim_of_IsTrimmed _ (IsTrimmed-append title_prefix v (cc) (value_is_there v h) refl t.finish)

module _ (s : State) (w : App) (h : Shows s w) (id : ℕ) (u : Item)
    (at : todo_at s id ≡ some u) where
  pub card_counted :
      app_page.count tt (element (codes "todo-card-") id) w ≡ (ok (bit (not u.deleted)), w)
  card_counted = rw ((ids id).0, h.state, at) refl

  un_pin_counted : app_page.count tt (element (codes "unpin-todo-") id) w ≡ (ok (bit u.pinned), w)
  un_pin_counted = rw ((ids id).4, h.state, at) refl

  pub hovers : (After : App → Type 0) → u.deleted ≡ false → After w → Hovers app_page tt id w After
  hovers After d after = record {
    cards = 0;
    hovered = w;
    counted = card_counted ∙ ap (λ b. (ok (bit (not b)), w)) d;
    visible = refl;
    hovers = refl;
    after = after;
  }

-- A click on a button that does an action.
pub does_update :
    (btn : Locator) (a : Action) (w : App) (s t : State) (r : Result)
    → Shows s w
    → step a s ≡ some (r, t)
    → click_on btn w ≡ act a w
    → Updates app_page tt btn w (Shows t)
does_update btn a w s t r h e k = record {
  clicked = act a w;
  clicks = ap (λ x. (ok tt, x)) k;
  counts = record {
    before = some [];
    updated = act a w;
    counter = refl;
    changes = refl;
    after = act-Shows a s t r w h e;
  };
}

-- The page after a write of another field.
pub still :
    (s : State) (w : App) (v : Text) (id : ℕ)
    → Shows s w
    → Shows s (record w { typed = v; current = id })
still s w v id h = record { state = h.state; reached = h.reached; shown = h.shown }

pub pins_on :
    (s t : State) (r : Result) (w : App) (id : ℕ)
    → Shows s w
    → step (pin_todo id) s ≡ some (r, t)
    → Pins app_page tt id w (Shows t)
pins_on s t r w id h e = record {
  buttons = 0;
  response = pin_response (element (codes "pin-todo-") id);
  clicked = act (pin_todo (id_at (codes "pin-todo-" ++ id_text id))) w;
  counted = refl;
  pinned = record {
    to_pin =
        subst
          (λ i.
            includes (codes "/todos/" ++ (id_text i ++ codes "/pin"))
              (codes "/todos/" ++ (id_text id ++ codes "/pin"))
            ≡ true)
          (sym (ids id).3) (includes_self (codes "/todos/" ++ (id_text id ++ codes "/pin")));
    patched = refl;
    is_ok = refl;
  };
  responds = λ f k. refl;
  counts = record {
    before = some [];
    updated = act (pin_todo (id_at (codes "pin-todo-" ++ id_text id))) w;
    counter = refl;
    changes = refl;
    after =
        subst (λ i. Shows t (act (pin_todo i) w)) (sym (ids id).3)
          (act-Shows (pin_todo id) s t r w h e);
  };
}

pub may_un_pin :
    (b : Bool) (s t : State) (r : Result) (w : App) (id : ℕ) (u : Item)
    → Shows s w
    → todo_at s id ≡ some u
    → u.pinned ≡ b
    → step (un_pin_todo id) s ≡ some (r, t)
    → MayUnPin app_page tt b id w (Shows t)
may_un_pin true s t r w id u h at p e = record {
  buttons = 0;
  counted = un_pin_counted s w h id u at ∙ ap (λ c. (ok (bit c), w)) p;
  updates =
      does_update (element (codes "unpin-todo-") id) (un_pin_todo id) w s t r h e
        (ap (λ i. act (un_pin_todo i) w) (ids id).4);
}
may_un_pin false s t r w id u h at p e = (
  un_pin_counted s w h id u at ∙ ap (λ c. (ok (bit c), w)) p,
  subst (λ x. Shows x w) (un_pin_todo-same id s u at p e) h,
)

left_zero : (i : ℕ) → i ≡ 0 + i
left_zero i = omega arith

module _ (w : App) (reach : Reachable w.state) where
  values_live :
      (ts : List Item) → All HasValue ts → All (λ (t : Todo). is_value t.value ≡ true) (live ts)
  values_live [] h = tt
  values_live (t ∷ ts) (h, hs) = elim (Bool-cases t.deleted) [
    | inl d ↦ rw d (values_live ts hs)
    | inr d ↦ rw d (h, values_live ts hs)
  ]

  marked-class :
      (b : Bool)
      → (cls : Text) × (class_if b (codes "pinned") ≡ some cls)
        × (includes cls (codes "pinned") ≡ b)
  marked-class true = (codes "pinned", refl, refl)
  marked-class false = ([], refl, refl)

  cards_shown :
      (i : ℕ) (ts : List Todo)
      → All (λ (t : Todo). is_value t.value ≡ true) ts
      → ((j : ℕ) → get_elem? (live w.state.todos) (j + i) ≡ get_elem? ts j)
      → ShowsFrom app_page tt w i ts
  cards_shown i [] h k = tt
  cards_shown i (t ∷ ts) (h, hs) k =
      let here : get_elem? (live w.state.todos) i ≡ some t =
        ap (get_elem? (live w.state.todos)) (left_zero i) ∙ k 0 in
      let (cls, classed, marked) = marked-class t.pinned in
      (
        record {
          title = title_prefix ++ t.value;
          cls = cls;
          testid = ap (λ o. (ok (card_attribute o (codes "data-testid")), w)) here;
          titled = ap (λ o. (ok (title_of o), w)) here;
          reads = title-IsTrimmed t.value h;
          trimmed = value-IsTrimmed t.value h;
          classed =
              ap (λ o. (ok (card_attribute o (codes "class")), w)) here
              ∙ ap (λ c. (ok c, w)) classed;
          marked = marked;
        },
        cards_shown (i + 1) ts hs
            (λ j. ap (get_elem? (live w.state.todos)) (omega arith) ∙ k (suc j)),
      )

  pub listed : ShowsTodos app_page tt w (live w.state.todos)
  listed = record {
    counted = refl;
    cards =
        cards_shown 0 _ (values_live w.state.todos (Reachable-IsValid reach).values)
          (λ j. ap (get_elem? (live w.state.todos)) (omega arith));
  }
