-- ===== src/TodoApp/Spec/Invariant.antt =====
-- The invariants of todo.fizz: ids count from 1, at most `MAX_TODOS` todos, at most one of them
-- pinned, and values of `TODO_VALUES`.
use fizzbee_mbt_examples.Prelude.{
  text_eq, none-ne-some, if_then-some, if_else-some, if_then-true, ℕ, zero, suc, ◌+◌, ◌≤◌, List, [],
  ◌∷◌, ◌++◌, Option, none, some, some_injective, Bool, true, false, ◌&&◌, Text, ltb, ◌==◌, length,
  get_elem?, set, ◌≡◌, refl, sym, ap, ◌∙◌, arith, All, All-append, Option-cases, inl, inr, count_if,
  bit, count_if-set, length-set, length-append_one,
}
use mathlib.Core.Path.{subst}
use fizzbee_mbt_examples.TodoApp.Spec.{
  Item, State, Action, create_todo, update_todo, delete_todo, read_todo, list_todo, pin_todo,
  un_pin_todo, Result, is_value, max_todos, todo_at, is_pinned, put, on_live, on_other, read_at,
  step, init,
}

-- The ids are `n`, `n + 1` and so on.
abbrev pub IsNumbered : ℕ → List Item → Type 0
IsNumbered n [] = Unit
IsNumbered n (t ∷ ts) = (t.id ≡ n) × IsNumbered (n + 1) ts

abbrev pub HasValue : Item → Type 0
HasValue t = is_value t.value ≡ true

pub record IsValid (s : State) : Type 0 where
  pub numbered : IsNumbered 1 s.todos
  pub next : s.next_id ≡ length s.todos + 1
  pub few : length s.todos ≤ max_todos
  pub one_pinned : count_if is_pinned s.todos ≤ 1
  pub values : All HasValue s.todos

append-IsNumbered :
    (n : ℕ) (ts : List Item) (t : Item)
    → IsNumbered n ts
    → t.id ≡ length ts + n
    → IsNumbered n (ts ++ t ∷ [])
append-IsNumbered n [] t h e = (omega arith, tt)
append-IsNumbered n (u ∷ ts) t (h, hs) e = (h, append-IsNumbered (n + 1) ts t hs (omega arith))

set-IsNumbered :
    (n : ℕ) (ts : List Item) (i : ℕ) (t u : Item)
    → IsNumbered n ts
    → get_elem? ts i ≡ some t
    → u.id ≡ t.id
    → IsNumbered n (set ts i u)
set-IsNumbered n [] i t u h e k = tt
set-IsNumbered n (x ∷ ts) zero t u (h, hs) e k = (cc, hs)
set-IsNumbered n (x ∷ ts) (suc i) t u (h, hs) e k = (h, set-IsNumbered (n + 1) ts i t u hs e k)

set-values :
    (ts : List Item) (i : ℕ) (u : Item) → All HasValue ts → HasValue u → All HasValue (set ts i u)
set-values [] i u h k = tt
set-values (x ∷ ts) zero u (h, hs) k = (k, hs)
set-values (x ∷ ts) (suc i) u (h, hs) k = (h, set-values ts i u hs k)

get_elem?-values :
    (ts : List Item) (i : ℕ) (t : Item) → All HasValue ts → get_elem? ts i ≡ some t → HasValue t
get_elem?-values [] i t h e = absurd (cc e)
get_elem?-values (x ∷ ts) zero t (h, hs) e = subst HasValue (some_injective e) h
get_elem?-values (x ∷ ts) (suc i) t (h, hs) e = get_elem?-values ts i t hs e

count_if-append_one :
    (p : Item → Bool) (ts : List Item) (t : Item)
    → count_if p (ts ++ t ∷ []) ≡ count_if p ts + bit (p t)
count_if-append_one p [] t = omega arith
count_if-append_one p (u ∷ ts) t = omega (arith, count_if-append_one p ts t)

-- A todo is replaced by one of its id.
put-IsValid :
    (s : State) (id : ℕ) (t u : Item)
    → IsValid s
    → todo_at s id ≡ some t
    → u.id ≡ t.id
    → HasValue u
    → count_if is_pinned s.todos + bit (is_pinned u) ≤ 1 + bit (is_pinned t)
    → IsValid (put s id u)
put-IsValid s zero t u v e k h c = v
put-IsValid s (suc i) t u v e k h c = record {
  numbered = set-IsNumbered 1 s.todos i t u v.numbered e k;
  next = v.next ∙ ap (λ n. n + 1) (sym (length-set s.todos i u));
  few = omega (arith, length-set s.todos i u, v.few);
  one_pinned = omega (arith, count_if-set is_pinned s.todos i u t e);
  values = set-values s.todos i u v.values h;
}

get_elem?-id :
    (n : ℕ) (ts : List Item) (i : ℕ) (t : Item)
    → IsNumbered n ts
    → get_elem? ts i ≡ some t
    → t.id ≡ i + n
get_elem?-id n [] i t h e = absurd (cc e)
get_elem?-id n (x ∷ ts) zero t (h, hs) e = rw (← some_injective e) (omega (arith, h))
get_elem?-id n (x ∷ ts) (suc i) t (h, hs) e = omega (arith, get_elem?-id (n + 1) ts i t hs e)

pub todo_at-id : (s : State) (id : ℕ) (t : Item) → IsValid s → todo_at s id ≡ some t → t.id ≡ id
todo_at-id s zero t v e = absurd (cc e)
todo_at-id s (suc i) t v e = omega (arith, get_elem?-id 1 s.todos i t v.numbered e)

pub todo_at-value : (s : State) (id : ℕ) (t : Item) → IsValid s → todo_at s id ≡ some t → HasValue t
todo_at-value s zero t v e = absurd (cc e)
todo_at-value s (suc i) t v e = get_elem?-values s.todos i t v.values e

on_live-IsValid :
    (s : State) (id : ℕ) (f : Item → Item) (r : Result) (t : State)
    → IsValid s
    → ((u : Item)
        → todo_at s id ≡ some u
        → ((f u).id ≡ u.id)
          × HasValue (f u)
          × (count_if is_pinned s.todos + bit (is_pinned (f u)) ≤ 1 + bit (is_pinned u)))
    → on_live s id (todo_at s id) f ≡ some (r, t)
    → IsValid t
on_live-IsValid s id f r t v k e = elim (Option-cases (todo_at s id)) [
  | inl h ↦ absurd (none-ne-some (rw h at e))
  | inr (u, h) ↦
      let (same, value, pins) = k u h in
      subst IsValid (ap (λ x. x.1) (some_injective (if_else-some u.deleted _ (rw h at e))))
        (put-IsValid s id u (f u) v h same value pins)
]

pub on_other-some :
    (o : Option Item) (v : Text) (rest : Option (Result × State)) {x : Result × State}
    → on_other o v rest ≡ some x
    → rest ≡ some x
on_other-some none v rest e = absurd (none-ne-some e)
on_other-some (some t) v rest e = if_else-some (text_eq v t.value) rest e

pub read_at-same :
    (s : State) (o : Option Item) {r : Result} {t : State} → read_at s o ≡ some (r, t) → s ≡ t
read_at-same s none e = absurd (none-ne-some e)
read_at-same s (some u) e = ap (λ x. x.1) (some_injective e)

create-IsValid :
    (s : State) (value : Text)
    → IsValid s
    → length s.todos ≤ 2
    → is_value value ≡ true
    → IsValid (record {
      todos =
          s.todos ++ record { id = s.next_id; value = value; deleted = false; pinned = false } ∷ [];
      next_id = s.next_id + 1;
    })
create-IsValid s value v room h = record {
  numbered = append-IsNumbered 1 s.todos _ v.numbered v.next;
  next = omega (
    arith,
    v.next,
    length-append_one s.todos
        (record { id = s.next_id; value = value; deleted = false; pinned = false }),
  );
  few = omega (
    arith,
    length-append_one s.todos
        (record { id = s.next_id; value = value; deleted = false; pinned = false }),
  );
  one_pinned = omega (
    arith,
    v.one_pinned,
    count_if-append_one is_pinned s.todos
        (record { id = s.next_id; value = value; deleted = false; pinned = false }),
  );
  values = All-append HasValue s.todos _ v.values (h, tt);
}

-- Every action that the specification allows keeps the invariant.
pub step-IsValid :
    (a : Action) (s : State) (r : Result) (t : State)
    → IsValid s
    → step a s ≡ some (r, t)
    → IsValid t
unfolding step
step-IsValid (create_todo value) s r t v e =
    let guard = if_then-true (ltb (length s.todos) max_todos && is_value value) _ e in
    subst IsValid
      (ap (λ x. x.1)
        (some_injective (if_then-some (ltb (length s.todos) max_todos && is_value value) _ e)))
      (create-IsValid s value v (ground (arith, guard)) (ground (arith, guard)))
step-IsValid (update_todo id value) s r t v e =
    on_live-IsValid s id _ r t v
      (λ u h. (refl, if_then-true (is_value value) _ e, ground (arith, v.one_pinned)))
      (on_other-some (todo_at s id) value _ (if_then-some (is_value value) _ e))
step-IsValid (delete_todo id) s r t v e =
    on_live-IsValid s id _ r t v
      (λ u h. (refl, todo_at-value s id u v h, ground (arith, v.one_pinned))) e
step-IsValid (read_todo id) s r t v e = subst IsValid (read_at-same s (todo_at s id) e) v
step-IsValid list_todo s r t v e = subst IsValid (ap (λ x. x.1) (some_injective e)) v
step-IsValid (pin_todo id) s r t v e =
    let free = if_then-true (count_if is_pinned s.todos == 0) _ e in
    on_live-IsValid s id _ r t v (λ u h. (refl, todo_at-value s id u v h, ground (arith, free)))
      (if_then-some (count_if is_pinned s.todos == 0) _ e)
step-IsValid (un_pin_todo id) s r t v e =
    on_live-IsValid s id _ r t v
      (λ u h. (refl, todo_at-value s id u v h, ground (arith, v.one_pinned))) e

-- The states that actions lead to from the initial one.
pub data Reachable : State → Type 0 where
  start : Reachable init
  next :
      {s t : State} {r : Result} (a : Action) → Reachable s → step a s ≡ some (r, t) → Reachable t

init-IsValid : IsValid init
init-IsValid = record {
  numbered = tt;
  next = refl;
  few = omega arith;
  one_pinned = omega arith;
  values = tt;
}

-- In every state that todo.fizz reaches, the ids of the todos are 1, 2 and so on in their order and
-- the next id is the one after them, there are at most `MAX_TODOS` todos, at most one todo is pinned
-- and not deleted, and every value is one of `TODO_VALUES`.
pub Reachable-IsValid : {s : State} → Reachable s → IsValid s
Reachable-IsValid start = init-IsValid
Reachable-IsValid (next {s} {t} {r} a h e) = step-IsValid a s r t (Reachable-IsValid h) e
