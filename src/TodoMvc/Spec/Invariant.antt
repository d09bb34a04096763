-- ===== src/TodoMvc/Spec/Invariant.antt =====
-- The invariants of todomvc.fizz: `UISyncsWithModel`, `NoEmptyTodo`, and the bounds on ids.
use fizzbee_mbt_examples.Prelude.{
  All-keep_if, All-map, none-ne-some, if_then-some, if_else-some, length-keep_if, length-append_one,
  length-map, ℕ, suc, ◌+◌, ◌≤◌, ◌<◌, List, [], ◌∷◌, ◌++◌, Option, none, some, some_injective, Bool,
  false, Text, ◌≡◌, ◌≢◌, refl, ap, arith, All, All-append, length, ltb, if◌then◌else◌, Bool-cases,
  inl, inr, get_elem?,
}
use mathlib.Core.Path.{subst}
use fizzbee_mbt_examples.TodoMvc.Spec.Titles.{All-replace}
use fizzbee_mbt_examples.TodoMvc.Spec.{
  Item, View, State, Action, user_adds_item, user_switches_filter, user_toggles_item,
  user_toggles_all, user_deletes_item, user_edits_item, user_clears_completed, replace, refresh,
  put, add_todo, toggle, toggle_all, destroy, save, clear_completed, step, init, max_items,
  is_empty, on_shown, filter_is, has_any, status_is, not_shown, unchecked,
}

-- What holds of each item: it has a title, and an id below the next one.
pub record IsItem (next : ℕ) (t : Item) : Type 0 where
  pub titled : t.title ≢ []
  pub below : t.id < next

pub record IsValid (s : State) : Type 0 where
  pub synced : refresh s ≡ s
  pub items : All (IsItem s.next_id) s.todos
  pub few : length s.todos ≤ s.next_id
  pub bound : s.next_id ≤ max_items

length-replace : (id : ℕ) (f : Item → Item) (ts : List Item) → length (replace id f ts) ≡ length ts
length-replace id f [] = refl
length-replace id f (t ∷ ts) = ap suc (length-replace id f ts)

IsItem-suc : (n : ℕ) (ts : List Item) → All (IsItem n) ts → All (IsItem (n + 1)) ts
IsItem-suc n [] h = tt
IsItem-suc n (t ∷ ts) (h, hs) =
    (record { titled = h.titled; below = omega arith }, IsItem-suc n ts hs)

-- Refreshing the view once is enough.
refresh_idem : (s : State) → refresh (refresh s) ≡ refresh s
unfolding refresh
refresh_idem s = refl

-- New items, no more than before, in a state that was valid.
put-IsValid :
    (s : State) (ts : List Item)
    → IsValid s
    → All (IsItem s.next_id) ts
    → length ts ≤ length s.todos
    → IsValid (put s ts)
put-IsValid s ts v h le = record {
  synced = refresh_idem _;
  items = unfold refresh in h;
  few = unfold refresh in omega (arith, v.few);
  bound = unfold refresh in v.bound;
}

module _ (s : State) (v : IsValid s) where
  toggle-IsValid : (id : ℕ) → IsValid (toggle id s)
  unfolding toggle
  toggle-IsValid id =
      put-IsValid s _ v
        (All-replace (IsItem s.next_id) id _ s.todos
          (λ t h. record { titled = h.titled; below = h.below }) v.items)
        (omega (arith, length-replace id _ s.todos))

  toggle_all-IsValid : (flag : Bool) → IsValid (toggle_all flag s)
  unfolding toggle_all
  toggle_all-IsValid flag =
      put-IsValid s _ v
        (All-map (IsItem s.next_id) _ s.todos (λ t h. record { titled = h.titled; below = h.below })
          v.items)
        (omega (arith, length-map _ s.todos))

  destroy-IsValid : (id : ℕ) → IsValid (destroy id s)
  unfolding destroy
  destroy-IsValid id =
      put-IsValid s _ v (All-keep_if (IsItem s.next_id) _ s.todos v.items)
        (length-keep_if _ s.todos)

  clear_completed-IsValid : IsValid (clear_completed s)
  unfolding clear_completed
  clear_completed-IsValid =
      put-IsValid s _ v (All-keep_if (IsItem s.next_id) _ s.todos v.items)
        (length-keep_if _ s.todos)

  save-IsValid : (id : ℕ) (new_text : Text) → new_text ≢ [] → IsValid (save id new_text s)
  unfolding save
  save-IsValid id new_text ne =
      put-IsValid s _ v
        (All-replace (IsItem s.next_id) id _ s.todos
          (λ t h. record { titled = ne; below = h.below }) v.items)
        (omega (arith, length-replace id _ s.todos))

  abbrev added : Text → State
  added title = record s {
    todos = s.todos ++ record { id = s.next_id; title = title; completed = false } ∷ [];
    next_id = s.next_id + 1;
  }

  added-IsValid :
      (title : Text) → title ≢ [] → s.next_id < max_items → IsValid (refresh (added title))
  added-IsValid title ne room = record {
    synced = refresh_idem _;
    items =
        unfold refresh in
        All-append (IsItem (s.next_id + 1)) s.todos _ (IsItem-suc s.next_id s.todos v.items)
          (record { titled = ne; below = omega arith }, tt);
    few =
        unfold refresh in
        omega (
          arith,
          length-append_one s.todos (record { id = s.next_id; title = title; completed = false }),
          v.few,
        );
    bound = unfold refresh in omega arith;
  }

  add_todo-IsValid : (title : Text) (t : State) → title ≢ [] → add_todo title s ≡ some t → IsValid t
  unfolding add_todo
  add_todo-IsValid title t ne e = elim (Bool-cases (ltb s.next_id max_items)) [
    | inl h ↦ subst IsValid (some_injective (rw h at e)) (added-IsValid title ne (ground arith))
    | inr h ↦ absurd (none-ne-some (rw h at e))
  ]

  on_shown-IsValid :
      (o : Option Item) (f : ℕ → State) (t : State)
      → ((id : ℕ) → IsValid (f id))
      → on_shown s o f ≡ some t
      → IsValid t
  on_shown-IsValid none f t h e = absurd (cc e)
  on_shown-IsValid (some i) f t h e = subst IsValid (some_injective e) (h i.id)

  edited-IsValid :
      (new_text : Text) (id : ℕ)
      → IsValid (if is_empty new_text then destroy id s else save id new_text s)
  edited-IsValid [] id = destroy-IsValid id
  edited-IsValid (c ∷ new_text) id = save-IsValid id (c ∷ new_text) (cc)

  switched-IsValid : (w : View) → IsValid (refresh (record s { view = w }))
  switched-IsValid w = record {
    synced = refresh_idem _;
    items = unfold refresh in v.items;
    few = unfold refresh in v.few;
    bound = unfold refresh in v.bound;
  }

-- Every action that the specification allows keeps the invariant.
pub step-IsValid : (a : Action) (s t : State) → IsValid s → step a s ≡ some t → IsValid t
unfolding step
step-IsValid (user_adds_item []) s t v e = absurd (none-ne-some e)
step-IsValid (user_adds_item (c ∷ title)) s t v e =
    add_todo-IsValid s v (c ∷ title) t (cc) (if_then-some (ltb (length s.todos) max_items) _ e)
step-IsValid (user_switches_filter f) s t v e =
    subst IsValid
      (some_injective
        (if_else-some (filter_is s.view.now_showing f) _ (if_then-some (has_any s.todos) _ e)))
      (switched-IsValid s v (record s.view { now_showing = f }))
step-IsValid (user_toggles_item i) s t v e =
    on_shown-IsValid s v (get_elem? s.view.shown_todos i) _ t (toggle-IsValid s v) e
step-IsValid user_toggles_all s t v e =
    subst IsValid (some_injective (if_else-some (status_is s.view.toggle_all_status not_shown) _ e))
      (toggle_all-IsValid s v (status_is s.view.toggle_all_status unchecked))
step-IsValid (user_deletes_item i) s t v e =
    on_shown-IsValid s v (get_elem? s.view.shown_todos i) _ t (destroy-IsValid s v) e
step-IsValid (user_edits_item i new_text) s t v e =
    on_shown-IsValid s v (get_elem? s.view.shown_todos i) _ t (edited-IsValid s v new_text) e
step-IsValid user_clears_completed s t v e =
    subst IsValid (some_injective (if_then-some s.view.clear_button_shown _ e))
      (clear_completed-IsValid s v)

-- The states that actions lead to from the initial one.
pub data Reach : State → Type 0 where
  start : Reach init
  next : {s t : State} (a : Action) → Reach s → step a s ≡ some t → Reach t

init-IsValid : IsValid init
unfolding refresh
init-IsValid = record { synced = refl; items = tt; few = omega arith; bound = omega arith }

-- In every state that the specification reaches, the view is what `Refresh` makes of the todos:
-- the shown ones, the number of active ones (`UISyncsWithModel`), the status of the toggle and the
-- button; every todo has a title (`NoEmptyTodo`) and an id below the next one; and there are no
-- more todos than ids were given, which are at most `MAX_ITEMS`.
pub Reach-IsValid : {s : State} → Reach s → IsValid s
Reach-IsValid start = init-IsValid
Reach-IsValid (next {s} {t} a r e) = step-IsValid a s t (Reach-IsValid r) e
