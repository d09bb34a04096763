-- ===== src/TodoMvc/Conforms/Runs.antt =====
-- Runs of the actions in TodoMvc/Controller on a conforming page, beside runs of todomvc.fizz.
use fizzbee_mbt_examples.Prelude.{
  ℕ, List, [], ◌∷◌, some, Text, ok, continue, ◌≡◌, refl, ap, ◌∙◌, map,
}
use fizzbee_mbt_examples.Js.Strings.Laws.{IsTrimmed}
use fizzbee_mbt_examples.Browser.{link, Locator, by_role, Playwright, ArgType}
use fizzbee_mbt_examples.TodoMvc.Spec
use fizzbee_mbt_examples.TodoMvc.Spec.{
  State, Action, FilterState, all, active, completed, user_adds_item, user_switches_filter,
  user_toggles_item, user_toggles_all, user_deletes_item, user_edits_item, user_clears_completed,
  step,
}
use fizzbee_mbt_examples.TodoMvc.Spec.Titles.{Brings}
use fizzbee_mbt_examples.TodoMvc.Spec.Invariant.{Reach}
use fizzbee_mbt_examples.TodoMvc.Controller.{
  text_argument, if_visible, action_user_adds_item, action_user_switches_filter,
  action_user_toggles_item, action_user_toggles_all, action_user_deletes_item,
  action_user_edits_item, action_user_clears_completed,
}
use fizzbee_mbt_examples.TodoMvc.View.Renders.{filter_name, observed, get_state-observed}
use fizzbee_mbt_examples.TodoMvc.Lifecycle.{Model, after_action}
use fizzbee_mbt_examples.TodoMvc.Conforms.{
  Clicks, IsTodoMvc, HasText, Encodes, perform, run_on, run,
}

-- A run that the specification allows from a state, with the views that it shows and where it ends.
pub data Run (AT : ArgType)
    : State → List (Action × List AT.Arg) → List Spec.View → State → Type 0 where
  done : {s : State} → Run AT s [] [] s
  then :
      {s t u : State} {a : Action} {args : List AT.Arg} {l : List (Action × List AT.Arg)}
      {vs : List Spec.View}
      → step a s ≡ some t
      → Encodes AT a args
      → Brings IsTrimmed a
      → Run AT t l vs u
      → Run AT s ((a, args) ∷ l) (t.view ∷ vs) u

module _ (AT : ArgType) (PW : Playwright) (p : PW.Page) where
  text_argument-eq :
      (args : List AT.Arg) (i : ℕ) (t : Text) (w : PW.World)
      → HasText AT args i t
      → text_argument PW AT p args i w ≡ (ok t, w)
  text_argument-eq args i t w (a, there, same) =
      rw (there, text_argument) (ap (λ x. (ok x, w)) same)

  clicked-eq :
      (target : Locator) (w : PW.World) (After : PW.World → Type 0) (c : Clicks PW p target w After)
      → if_visible PW AT p target (PW.click p target) w ≡ (ok tt, c.clicked)
  clicked-eq target w After c = rw c.visible c.clicks

  switch-eq :
      (f : FilterState) (args : List AT.Arg) (w : PW.World) (After : PW.World → Type 0)
      → HasText AT args 0 (filter_name f)
      → (c : Clicks PW p (by_role link (filter_name f)) w After)
      → action_user_switches_filter PW AT p args w ≡ (ok tt, c.clicked)
  unfolding action_user_switches_filter
  switch-eq all args w After h c = rw (text_argument-eq args 0 _ w h) (clicked-eq _ w After c)
  switch-eq active args w After h c = rw (text_argument-eq args 0 _ w h) (clicked-eq _ w After c)
  switch-eq completed args w After h c = rw (text_argument-eq args 0 _ w h) (clicked-eq _ w After c)

  module _ (Shows : State → PW.World → Type 0) (A : IsTodoMvc PW p Shows) where
    perform-Shows :
        (a : Action) (args : List AT.Arg) (s t : State) (w : PW.World)
        → Shows s w
        → step a s ≡ some t
        → Encodes AT a args
        → Brings IsTrimmed a
        → (w' : PW.World) × (perform AT PW p a args w ≡ (ok tt, w')) × Shows t w'
    unfolding action_user_adds_item action_user_toggles_item action_user_toggles_all
        action_user_deletes_item action_user_edits_item action_user_clears_completed
    perform-Shows (user_adds_item title) args s t w h e c q =
        let g = A.adds s t w title h q e in
        (g.entered, rw (text_argument-eq args 0 title w c, g.fills) g.presses, g.after)
    perform-Shows (user_switches_filter f) args s t w h e c q =
        let g = A.switches s t w f h e in (g.clicked, switch-eq f args w (Shows t) c g, g.after)
    perform-Shows (user_toggles_item i) args s t w h e c q =
        let g = A.toggles s t w i h e in (g.clicked, rw (c, g.visible) g.clicks, g.after)
    perform-Shows user_toggles_all args s t w h e c q =
        let g = A.toggles_all s t w h e in (g.clicked, clicked-eq _ w (Shows t) g, g.after)
    perform-Shows (user_deletes_item i) args s t w h e c q =
        let (visible, (hovered, deleted, hovers, deletes, after)) = A.deletes s t w i h e in
        (deleted, rw (c, visible, hovers) deletes, after)
    perform-Shows (user_edits_item i new_text) args s t w h e (c, d) q =
        let (visible, (editing, edits, g)) = A.edits s t w i new_text h q e in
        (
          g.entered,
          rw (text_argument-eq args 1 new_text w d, c, visible, edits, g.fills) g.presses,
          g.after,
        )
    perform-Shows user_clears_completed args s t w h e c q =
        let g = A.clears s t w h e in (g.clicked, clicked-eq _ w (Shows t) g, g.after)

    settles-eq :
        (s : State) (m : Model PW)
        → m.self.page ≡ some p
        → Shows s m.world
        → (w : PW.World) × (after_action PW m ≡ (ok tt, record m { world = w })) × Shows s w
    unfolding after_action
    settles-eq s m has h = let (w, e, k) = A.settles s m.world h in (w, rw (has, e) refl, k)

    -- One step of the runner.
    cycle :
        (a : Action) (args : List AT.Arg) (l : List (Action × List AT.Arg)) (s t : State)
        (m : Model PW)
        → m.self.page ≡ some p
        → Reach t
        → Shows s m.world
        → step a s ≡ some t
        → Encodes AT a args
        → Brings IsTrimmed a
        → (w : PW.World) × Shows t w
          × (run AT PW p ((a, args) ∷ l) m
              ≡ continue
                  (run AT PW p l (record m { world = w }))
                  (λ vs m'. (ok (observed t.view ∷ vs), m')))
    unfolding run_on
    cycle a args l s t m has reach h e c q =
        let (w, acted, k) = perform-Shows a args s t m.world h e c q in
        let (w', settled, k') = settles-eq t (record m { world = w }) has k in
        (w', k', rw (acted, settled, get_state-observed PW p w' t reach (A.renders t w' k')) refl)

    -- On a page that behaves as documented, from a state that todomvc.fizz reaches and that the page
    -- shows: for every run that the specification allows, whose titles have no white space at their
    -- ends, with arguments that encode its choices, every action through the registry resolves, and
    -- so do `afterAction` and `getState` after it; the states that `getState` returns are exactly
    -- the specification's views, in their order; the adapter is as it was, and the page shows the
    -- last state.
    pub run-observed :
        {l : List (Action × List AT.Arg)} {vs : List Spec.View} {s u : State} (m : Model PW)
        → m.self.page ≡ some p
        → Reach s
        → Shows s m.world
        → Run AT s l vs u
        → (m' : Model PW) × (run AT PW p l m ≡ (ok (map observed vs), m'))
          × (m'.self ≡ m.self)
          × Shows u m'.world
    run-observed m has reach h done = (m, unfold run_on in refl, refl, h)
    run-observed m has reach h (then {s} {t} {u} {a} {args} {l} {vs} e c q rest) =
        let (w, k, first) = cycle a args l s t m has (Reach.next a reach e) h e c q in
        let (m', others, same, last) =
          run-observed (record m { world = w }) has (Reach.next a reach e) k rest in
        (m', first ∙ rw others refl, same, last)
