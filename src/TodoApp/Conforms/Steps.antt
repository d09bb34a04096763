-- ===== src/TodoApp/Conforms/Steps.antt =====
-- The actions that write, on the elements of a conforming page.
use fizzbee_mbt_examples.Prelude.{
  ℕ, suc, List, some, Bool, true, false, Text, codes, ok, continue, ◌≡◌, refl, ap, arith,
  if◌then◌else◌, ◌==◌, pure,
}
use fizzbee_mbt_examples.Prelude.Int.{pos}
use fizzbee_mbt_examples.Browser.{button, Locator, by_role, Response, Playwright, ArgType}
use fizzbee_mbt_examples.TodoApp.Actions
use fizzbee_mbt_examples.TodoApp.Actions.{
  Reply, undefined, argument, get_todo_id, is_missing, hover_on_card, on_card, settle, safe_run,
  is_pin_patch, click_and_wait_for_list_dom_update, pin_and_wait_for_list_dom_update,
  action_create_todo, action_update_todo, action_delete_todo, action_pin_todo, action_un_pin_todo,
}
use fizzbee_mbt_examples.TodoApp.Conforms.{
  element, Pinned, Updates, Hovers, Fills, OpensForm, Pins, MayUnPin, HasText, HasId,
}

some_buttons : (n : ℕ) → (suc n == 0) ≡ false
some_buttons n = ground arith

module _ (PW : Playwright) (AT : ArgType) (p : PW.Page) where
  pub updated-eq :
      (btn : Locator) (w : PW.World) (After : PW.World → Type 0) (u : Updates PW p btn w After)
      → click_and_wait_for_list_dom_update PW AT (some p) btn w ≡ (ok tt, u.counts.updated)
  unfolding click_and_wait_for_list_dom_update
  updated-eq btn w After u = rw (u.counts.counter, u.clicks) u.counts.changes

  patched :
      (id : ℕ) (r : Response) → Pinned id r → is_pin_patch PW AT (some p) (some (pos id)) r ≡ true
  patched id r h = rw (h.to_pin, h.patched) refl

  pinned-eq :
      (id : ℕ) (w : PW.World) (After : PW.World → Type 0) (u : Pins PW p id w After)
      → pin_and_wait_for_list_dom_update PW AT
          (some p)
          (element (codes "pin-todo-") id)
          (some (pos id))
          w
        ≡ (ok tt, u.counts.updated)
  unfolding pin_and_wait_for_list_dom_update
  pinned-eq id w After u =
      rw
        (
          u.counts.counter,
          u.responds (is_pin_patch PW AT (some p) (some (pos id))) (patched id u.response u.pinned),
          u.pinned.is_ok,
        )
        u.counts.changes

  seen :
      (id : ℕ) (w : PW.World) (After : PW.World → Type 0)
      → Hovers PW p id w After
      → is_missing PW p (element (codes "todo-card-") id) w ≡ (ok false, w)
  unfolding is_missing
  seen id w After h = rw h.counted (ground (arith, h.visible))

  pub hovered-eq :
      (id : ℕ) (w : PW.World) (After : PW.World → Type 0) (h : Hovers PW p id w After)
      → hover_on_card PW AT (some p) (some (pos id)) w
        ≡ (ok (some (element (codes "todo-card-") id)), h.hovered)
  unfolding hover_on_card
  hovered-eq id w After h = rw (seen id w After h, h.hovers) refl

  pub create-eq :
      (v : Text) (args : List AT.Arg) (w : PW.World) (After : PW.World → Type 0)
      → HasText PW AT args 0 v
      → (f : Fills PW p v w (λ w'. Updates PW p (by_role button (codes "Add")) w' After))
      → action_create_todo PW AT (some p) args w ≡ (ok undefined, f.after.counts.updated)
  unfolding action_create_todo
  create-eq v args w After (a, there, same) f =
      rw (there, argument, same, f.fills_title, f.fills_text)
        (rw (updated-eq _ _ After f.after) refl)

  pub update-eq :
      (id : ℕ) (v : Text) (args : List AT.Arg) (w : PW.World) (After : PW.World → Type 0)
      → HasId PW AT args id
      → HasText PW AT args 1 v
      → (h : Hovers PW p id w (λ w1.
          OpensForm PW p id w1 (λ w2.
            Fills PW p v w2 (λ w3. Updates PW p (by_role button (codes "Update")) w3 After))))
      → action_update_todo PW AT (some p) args w
        ≡ (ok undefined, h.after.after.after.counts.updated)
  unfolding action_update_todo Actions.update_todo safe_run
  update-eq id v args w After (a, there, same) (b, second, words) h =
      let f = h.after in
      rw (there, argument, same)
        (rw (hovered-eq id w _ h, f.opens)
          (rw (second, argument, words)
            (rw (f.waits, f.after.fills_title, f.after.fills_text)
              (rw (updated-eq _ _ After f.after.after) refl))))

  pub delete-eq :
      (id : ℕ) (args : List AT.Arg) (w : PW.World) (After : PW.World → Type 0)
      → HasId PW AT args id
      → (h : Hovers PW p id w (λ w1.
          (asked : PW.World) × (PW.accept_next_dialog p w1 ≡ (ok tt, asked))
          × Updates PW p (element (codes "delete-todo-") id) asked After))
      → action_delete_todo PW AT (some p) args w ≡ (ok undefined, h.after.2.counts.updated)
  unfolding action_delete_todo Actions.delete_todo safe_run
  delete-eq id args w After (a, there, same) h =
      let (asked, accepts, u) = h.after in
      rw (there, argument, same)
        (rw (hovered-eq id w _ h, accepts) (rw (updated-eq _ _ After u) refl))

  pub pin-eq :
      (id : ℕ) (args : List AT.Arg) (w : PW.World) (After : PW.World → Type 0)
      → HasId PW AT args id
      → (h : Hovers PW p id w (λ w1. Pins PW p id w1 After))
      → action_pin_todo PW AT (some p) args w ≡ (ok undefined, h.after.counts.updated)
  unfolding action_pin_todo Actions.pin_todo safe_run
  pin-eq id args w After (a, there, same) h =
      rw (there, argument, same)
        (rw (hovered-eq id w _ h, h.after.counted)
          (rw (some_buttons h.after.buttons)
            (ap (settle PW AT (some p) (codes "pinTodo")) (pinned-eq id _ After h.after))))

  pub un_pin-eq :
      (b : Bool) (id : ℕ) (w : PW.World) (After : PW.World → Type 0)
      → MayUnPin PW p b id w After
      → (w' : PW.World) × After w'
        × (continue (PW.count p (element (codes "unpin-todo-") id) w) (λ n.
              if n == 0
              then pure tt
              else click_and_wait_for_list_dom_update PW AT
                  (some p)
                  (element (codes "unpin-todo-") id))
            ≡ (ok tt, w'))
  un_pin-eq true id w After u = (
    u.updates.counts.updated,
    u.updates.counts.after,
    rw (u.counted, some_buttons u.buttons) (updated-eq _ _ After u.updates),
  )
  un_pin-eq false id w After (none_there, after) = (w, after, rw none_there refl)
