-- ===== src/TodoMvc/Spec/Titles.antt =====
-- Predicates on all titles in a state of todomvc.fizz, and the titles that actions bring.
use fizzbee_mbt_examples.Prelude.{
  ℕ, List, [], ◌∷◌, Option, none, some, some_injective, Text, ◌≡◌, All, All-append, All-keep_if,
  All-map, length, ltb, ◌==◌, if◌then◌else◌, Bool-cases, inl, inr, get_elem?, none-ne-some,
  if_then-some, if_else-some,
}
use mathlib.Core.Path.{subst}
use fizzbee_mbt_examples.TodoMvc.Spec.{
  Item, State, Action, user_adds_item, user_switches_filter, user_toggles_item, user_toggles_all,
  user_deletes_item, user_edits_item, user_clears_completed, replace, refresh, add_todo, toggle,
  toggle_all, destroy, save, clear_completed, step, max_items, is_empty, on_shown, filter_is,
  has_any, status_is, not_shown,
}

pub All-replace :
    (P : Item → Type 0) (id : ℕ) (f : Item → Item) (ts : List Item)
    → ((t : Item) → P t → P (f t))
    → All P ts
    → All P (replace id f ts)
All-replace P id f [] k h = tt
All-replace P id f (t ∷ ts) k (h, hs) = elim (Bool-cases (t.id == id)) [
  | inl e ↦ rw e (k t h, All-replace P id f ts k hs)
  | inr e ↦ rw e (h, All-replace P id f ts k hs)
]

module _ (Q : Text → Type 0) where
  -- Every todo has such a title.
  abbrev pub Titled : State → Type 0
  Titled s = All (λ t. Q t.title) s.todos

  -- The titles that an action brings.
  abbrev pub Brings : Action → Type 0
  Brings (user_adds_item title) = Q title
  Brings (user_edits_item i new_text) = Q new_text
  Brings _ = Unit

  add_todo-Titled :
      (title : Text) (s t : State) → Q title → Titled s → add_todo title s ≡ some t → Titled t
  unfolding add_todo refresh
  add_todo-Titled title s t q h e =
      subst Titled (some_injective (if_then-some (ltb s.next_id max_items) _ e))
        (All-append (λ u. Q u.title) s.todos _ h (q, tt))

  on_shown-Titled :
      (s : State) (o : Option Item) (f : ℕ → State) (t : State)
      → ((id : ℕ) → Titled (f id))
      → on_shown s o f ≡ some t
      → Titled t
  on_shown-Titled s none f t k e = absurd (none-ne-some e)
  on_shown-Titled s (some i) f t k e = subst Titled (some_injective e) (k i.id)

  edited-Titled :
      (s : State) (new_text : Text) (id : ℕ)
      → Q new_text
      → Titled s
      → Titled (if is_empty new_text then destroy id s else save id new_text s)
  unfolding destroy save refresh
  edited-Titled s [] id q h = All-keep_if (λ u. Q u.title) _ s.todos h
  edited-Titled s (c ∷ new_text) id q h = All-replace (λ u. Q u.title) id _ s.todos (λ u k. q) h

  -- Every action keeps what holds of all titles.
  pub step-Titled : (a : Action) (s t : State) → Brings a → Titled s → step a s ≡ some t → Titled t
  unfolding step toggle toggle_all destroy clear_completed refresh
  step-Titled (user_adds_item []) s t q h e = absurd (none-ne-some e)
  step-Titled (user_adds_item (c ∷ title)) s t q h e =
      add_todo-Titled (c ∷ title) s t q h (if_then-some (ltb (length s.todos) max_items) _ e)
  step-Titled (user_switches_filter f) s t q h e =
      subst Titled
        (some_injective
          (if_else-some (filter_is s.view.now_showing f) _ (if_then-some (has_any s.todos) _ e)))
        h
  step-Titled (user_toggles_item i) s t q h e =
      on_shown-Titled s (get_elem? s.view.shown_todos i) _ t
        (λ id. All-replace (λ u. Q u.title) id _ s.todos (λ u k. k) h) e
  step-Titled user_toggles_all s t q h e =
      subst Titled
        (some_injective (if_else-some (status_is s.view.toggle_all_status not_shown) _ e))
        (All-map (λ u. Q u.title) _ s.todos (λ u k. k) h)
  step-Titled (user_deletes_item i) s t q h e =
      on_shown-Titled s (get_elem? s.view.shown_todos i) _ t
        (λ id. All-keep_if (λ u. Q u.title) _ s.todos h) e
  step-Titled (user_edits_item i new_text) s t q h e =
      on_shown-Titled s (get_elem? s.view.shown_todos i) _ t (λ id. edited-Titled s new_text id q h)
        e
  step-Titled user_clears_completed s t q h e =
      subst Titled (some_injective (if_then-some s.view.clear_button_shown _ e))
        (All-keep_if (λ u. Q u.title) _ s.todos h)
