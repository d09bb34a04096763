-- ===== src/TodoMvc/Tests/App/Elements.antt =====
-- What the application shows of a state, and what its elements do.
use fizzbee_mbt_examples.Prelude.{
  ℕ, suc, ◌+◌, List, [], ◌∷◌, Option, none, some, none-ne-some, true, false, codes, ok, ◌≡◌, refl,
  sym, ap, ◌∙◌, arith, get_elem?, length, keep_if, ltb, All, All-keep_if, Bool-cases, inl, inr,
  if_else-false,
}
use mathlib.Core.Path.{subst}
use fizzbee_mbt_examples.Js.Strings.Laws.{IsTrimmed, trim_of_IsTrimmed}
use fizzbee_mbt_examples.Browser.{Locator, by_test_id}
use fizzbee_mbt_examples.TodoMvc.Spec.{
  Item, State, Action, FilterState, all, active, completed, step, user_toggles_all, refresh, shown,
  has_any, is_active, status, status_is, not_shown, on_shown,
}
use fizzbee_mbt_examples.TodoMvc.Spec.Titles.{Titled, Brings, step-Titled}
use fizzbee_mbt_examples.TodoMvc.Spec.Invariant.{Reach, Reach-IsValid}
use fizzbee_mbt_examples.TodoMvc.View.Renders.{Renders, ShowsItems, filter_name}
use fizzbee_mbt_examples.TodoMvc.Tests.App.{
  filter_of, follow, App, act, app_page, places, sees, is_there, is_done, label_of,
}

pub record Shows (s : State) (w : App) : Type 0 where
  pub state : w.state ≡ s
  pub reached : Reach s
  pub titled : Titled IsTrimmed s

act-eq :
    (a : Action) (s t : State) (w : App) → w.state ≡ s → step a s ≡ some t → (act a w).state ≡ t
unfolding act
act-eq a s t w h e = ap (λ o. (follow o w).state) (ap (step a) h ∙ e)

pub act-Shows :
    (a : Action) (s t : State) (w : App)
    → Shows s w
    → Brings IsTrimmed a
    → step a s ≡ some t
    → Shows t (act a w)
act-Shows a s t w h q e = record {
  state = act-eq a s t w h.state e;
  reached = Reach.next a h.reached e;
  titled = step-Titled IsTrimmed a s t q h.titled e;
}

left_zero : (i : ℕ) → i ≡ 0 + i
left_zero i = omega arith

right_zero : (i : ℕ) → i + 0 ≡ i
right_zero i = omega arith

places-shown :
    (w : App) (l : Locator) (i : ℕ) (ts : List Item)
    → All (λ t. IsTrimmed t.title) ts
    → ((j : ℕ) → get_elem? w.state.view.shown_todos (j + i) ≡ get_elem? ts j)
    → ShowsItems app_page tt w (places l i ts) ts
places-shown w l i [] h k = tt
places-shown w l i (t ∷ ts) (h, hs) k =
    let here = ap (get_elem? w.state.view.shown_todos) (left_zero i) ∙ k 0 in
    (
      record {
        label = t.title;
        labelled = ap (λ o. (ok (label_of o), w)) here;
        reads = trim_of_IsTrimmed t.title h;
        ticked = ap (λ o. (ok (is_done o), w)) here;
      },
      places-shown w l (i + 1) ts hs
          (λ j. ap (get_elem? w.state.view.shown_todos) (omega arith) ∙ k (suc j)),
    )

shown-IsTrimmed :
    (f : FilterState) (ts : List Item)
    → All (λ t. IsTrimmed t.title) ts
    → All (λ t. IsTrimmed t.title) (shown f ts)
shown-IsTrimmed all ts h = h
shown-IsTrimmed active ts h = All-keep_if (λ t. IsTrimmed t.title) _ ts h
shown-IsTrimmed completed ts h = All-keep_if (λ t. IsTrimmed t.title) _ ts h

module _ (w : App) (reach : Reach w.state) (titled : Titled IsTrimmed w.state) where
  synced : refresh w.state ≡ w.state
  synced = (Reach-IsValid reach).synced

  lists : w.state.view.shown_todos ≡ shown w.state.view.now_showing w.state.todos
  unfolding refresh
  lists = sym (ap (λ (s : State). s.view.shown_todos) synced)

  clears :
      w.state.view.clear_button_shown
      ≡ ltb (length (keep_if is_active w.state.todos)) (length w.state.todos)
  unfolding refresh
  clears = sym (ap (λ (s : State). s.view.clear_button_shown) synced)

  pub drawn : Renders app_page tt w w.state.view.now_showing w.state.todos
  drawn = record {
    elements = places (by_test_id (codes "todo-item")) 0 w.state.view.shown_todos;
    rest = codes " left";
    address = refl;
    listed = refl;
    items =
        subst
          (λ ts.
            ShowsItems app_page tt w (places (by_test_id (codes "todo-item")) 0 ts)
              (shown w.state.view.now_showing w.state.todos))
          (sym lists)
          (places-shown w (by_test_id (codes "todo-item")) 0 _
            (shown-IsTrimmed w.state.view.now_showing w.state.todos titled)
            (λ j.
              ap (get_elem? w.state.view.shown_todos) (right_zero j)
              ∙ ap (λ ts. get_elem? ts j) lists));
    footer = refl;
    counted = λ h. refl;
    no_digit = refl;
    toggle_there = refl;
    toggle_checked = λ h. refl;
    clear_there = ap (λ b. (ok b, w)) clears;
  }

-- From the world's own state to one that is equal to it.
pub from_own :
    (s : State) (w : App) (P : State → Type 0)
    → Shows s w
    → (Reach w.state → Titled IsTrimmed w.state → P w.state)
    → P s
from_own s w P h k =
    subst P h.state
      (k (subst Reach (sym h.state) h.reached) (subst (Titled IsTrimmed) (sym h.state) h.titled))

pub on_shown-there :
    (s : State) (o : Option Item) (f : ℕ → State) (t : State)
    → on_shown s o f ≡ some t
    → is_there o ≡ true
on_shown-there s none f t e = absurd (none-ne-some e)
on_shown-there s (some u) f t e = refl

pub seen :
    (l : Locator) (s : State) (w : App)
    → Shows s w
    → sees l s ≡ true
    → app_page.is_visible tt l w ≡ (ok true, w)
seen l s w h e = ap (λ b. (ok b, w)) (ap (sees l) h.state ∙ e)

no_todos :
    (ts : List Item) (n : ℕ)
    → has_any ts ≡ false
    → status_is (status (length ts) n) not_shown ≡ true
no_todos [] n h = refl
no_todos (t ∷ ts) n h = absurd (cc h)

pub has_todos : (s t : State) → Reach s → step user_toggles_all s ≡ some t → has_any s.todos ≡ true
unfolding step refresh
has_todos s t r e = elim (Bool-cases (has_any s.todos)) [
  | inl h ↦ h
  | inr h ↦
      let off = if_else-false (status_is s.view.toggle_all_status not_shown) _ e in
      let on =
        ap (λ (u : State). status_is u.view.toggle_all_status not_shown)
          (sym (Reach-IsValid r).synced)
        ∙ no_todos s.todos _ h in
      absurd (cc (off, on))
]

pub filter_of-name : (f : FilterState) → filter_of (filter_name f) ≡ f
filter_of-name all = refl
filter_of-name active = refl
filter_of-name completed = refl
