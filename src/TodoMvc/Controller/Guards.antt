-- ===== src/TodoMvc/Controller/Guards.antt =====
-- The guards of the controller's actions on all items, beside those of todomvc.fizz.
use fizzbee_mbt_examples.Prelude.{
  Exec, Outcome, pure, ℕ, List, [], ◌∷◌, Option, none, some, none-ne-some, Bool, true, false, not,
  ok, ltb, ◌==◌, ◌≡◌, refl, sym, ap, ◌∙◌, arith, length, keep_if, Bool-cases, inl, inr,
  if◌then◌else◌,
}
use fizzbee_mbt_examples.Browser.{Playwright, ArgType}
use fizzbee_mbt_examples.TodoMvc.Spec.{
  Item, State, not_shown, user_toggles_all, user_clears_completed, refresh, status, status_is,
  has_any, is_active, step,
}
use fizzbee_mbt_examples.TodoMvc.Spec.Invariant.{Reach, Reach-IsValid}
use fizzbee_mbt_examples.TodoMvc.View.{toggle_all, clear_completed}
use fizzbee_mbt_examples.TodoMvc.View.Renders.{Renders}
use fizzbee_mbt_examples.TodoMvc.Controller.{action_user_toggles_all, action_user_clears_completed}

status-not_shown :
    (ts : List Item) (n : ℕ) → status_is (status (length ts) n) not_shown ≡ not (has_any ts)
status-not_shown [] n = refl
status-not_shown (t ∷ ts) n = elim (Bool-cases (n == 0)) [
  | inl e ↦ ground arith
  | inr e ↦ ground arith
]

module _ (s : State) (reach : Reach s) where
  synced_status : status_is s.view.toggle_all_status not_shown ≡ not (has_any s.todos)
  unfolding refresh
  synced_status =
      ap (λ (u : State). status_is u.view.toggle_all_status not_shown)
        (sym (Reach-IsValid reach).synced)
      ∙ status-not_shown s.todos _

  synced_button :
      s.view.clear_button_shown ≡ ltb (length (keep_if is_active s.todos)) (length s.todos)
  unfolding refresh
  synced_button = ap (λ (u : State). u.view.clear_button_shown) (sym (Reach-IsValid reach).synced)

-- What a guarded click comes to, by whether the specification allows the action.
module _ {W : Type 0} (w : W) (click : Exec W (Unit {0})) (x : State) where
  abbrev Agrees : Option State → Outcome (Unit {0}) × W → Type 0
  Agrees allowed out =
      (allowed ≡ none → out ≡ (ok tt, w)) × ((t : State) → allowed ≡ some t → out ≡ click w)

  unless-Agrees :
      (seen off : Bool)
      → off ≡ not seen
      → Agrees (if off then none else some x) ((if seen then click else pure tt) w)
  unless-Agrees true off e = rw e ((λ h. absurd (none-ne-some (sym h))), λ t h. refl)
  unless-Agrees false off e = rw e ((λ h. refl), λ t h. absurd (none-ne-some h))

  when-Agrees :
      (seen on : Bool)
      → on ≡ seen
      → Agrees (if on then some x else none) ((if seen then click else pure tt) w)
  when-Agrees true on e = rw e ((λ h. absurd (none-ne-some (sym h))), λ t h. refl)
  when-Agrees false on e = rw e ((λ h. refl), λ t h. absurd (none-ne-some h))

-- On a page that renders the todos and the filter of a state that todomvc.fizz reaches, and for each
-- of `UserTogglesAll` and `UserClearsCompleted`: if the specification does not allow the action in
-- that state, it resolves and leaves the world as it is, and if it does, the action is the click on
-- its element.
pub guards_agree :
    (PW : Playwright) (AT : ArgType) (p : PW.Page) (w : PW.World) (args : List AT.Arg) (s : State)
    → Reach s
    → Renders PW p w s.view.now_showing s.todos
    → ((step user_toggles_all s ≡ none → action_user_toggles_all PW AT p args w ≡ (ok tt, w))
        × ((t : State)
            → step user_toggles_all s ≡ some t
            → action_user_toggles_all PW AT p args w ≡ PW.click p toggle_all w))
      × ((step user_clears_completed s ≡ none
            → action_user_clears_completed PW AT p args w ≡ (ok tt, w))
          × ((t : State)
              → step user_clears_completed s ≡ some t
              → action_user_clears_completed PW AT p args w ≡ PW.click p clear_completed w))
unfolding step action_user_toggles_all action_user_clears_completed
guards_agree PW AT p w args s reach shows = (
  rw shows.toggle_there
      (unless-Agrees w (PW.click p toggle_all) _ (has_any s.todos) _ (synced_status s reach)),
  rw shows.clear_there (when-Agrees w (PW.click p clear_completed) _ _ _ (synced_button s reach)),
)
