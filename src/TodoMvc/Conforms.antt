-- ===== src/TodoMvc/Conforms.antt =====
-- A page that behaves as todomvc.fizz demands, and a run of the adapter on it: the runner's steps,
-- each an action through the registry, `afterAction`, and `getState`.
pub mod Runs
pub mod Sessions
use fizzbee_mbt_examples.Prelude.{
  ℕ, List, [], ◌∷◌, Option, none, some, Bool, true, false, Text, codes, Exec, Outcome, ok, throw,
  raise, pure, continue, ◌>>=◌, ◌>>◌, ◌≡◌, get_elem?, if◌then◌else◌,
}
use fizzbee_mbt_examples.Js.Strings.Laws.{IsTrimmed}
use fizzbee_mbt_examples.Browser.{
  AriaRole, textbox, button, link, checkbox, Locator, by_role, by_test_id, inside, nth, Playwright,
  ArgType,
}
use fizzbee_mbt_examples.Mbt.{registered}
use fizzbee_mbt_examples.TodoMvc.Spec
use fizzbee_mbt_examples.TodoMvc.Spec.{
  State, Action, FilterState, user_adds_item, user_switches_filter, user_toggles_item,
  user_toggles_all, user_deletes_item, user_edits_item, user_clears_completed, step,
}
use fizzbee_mbt_examples.TodoMvc.View.{ViewState, get_state}
use fizzbee_mbt_examples.TodoMvc.View.Renders.{filter_name, Renders}
use fizzbee_mbt_examples.TodoMvc.Lifecycle.{Model, on_world, after_action}
use fizzbee_mbt_examples.TodoMvc.Runner.{TodoControllerRole, action_registry, controller_role}

-- The elements of the page.
abbrev pub item_element : ℕ → Locator
item_element i = nth (by_test_id (codes "todo-item")) i

abbrev pub item_box : ℕ → Locator
item_box i = inside (item_element i) (by_role checkbox (codes "Toggle Todo"))

abbrev pub item_title : ℕ → Locator
item_title i = inside (item_element i) (by_test_id (codes "todo-title"))

abbrev pub item_delete : ℕ → Locator
item_delete i = inside (item_element i) (by_role button (codes "Delete"))

abbrev pub enter : Text
enter = codes "Enter"

module _ (PW : Playwright) (p : PW.Page) where
  -- An element that a click on works, and that then leads on.
  pub record Clicks (target : Locator) (w : PW.World) (After : PW.World → Type 0) : Type 0 where
    pub visible : PW.is_visible p target w ≡ (ok true, w)
    pub clicked : PW.World
    pub clicks : PW.click p target w ≡ (ok tt, clicked)
    pub after : After clicked

  -- A text that is filled in and entered.
  pub record Enters (box : Locator) (t : Text) (w : PW.World) (After : PW.World → Type 0)
      : Type 0 where
    pub filled : PW.World
    pub entered : PW.World
    pub fills : PW.fill p box t w ≡ (ok tt, filled)
    pub presses : PW.press p box enter filled ≡ (ok tt, entered)
    pub after : After entered

  -- The documented behaviour of the application: `Shows` relates a state of the specification to a
  -- world whose page shows it, and what a user does on the page leads on as the specification says.
  -- Titles are without white space at their ends, which the page would cut off.
  pub record IsTodoMvc (Shows : State → PW.World → Type 0) : Type 0 where
    pub renders : (s : State) (w : PW.World) → Shows s w → Renders PW p w s.view.now_showing s.todos
    pub settles :
        (s : State) (w : PW.World)
        → Shows s w
        → (w' : PW.World) × (PW.wait_for_dom_settled p 1 w ≡ (ok tt, w')) × Shows s w'
    pub adds :
        (s t : State) (w : PW.World) (title : Text)
        → Shows s w
        → IsTrimmed title
        → step (user_adds_item title) s ≡ some t
        → Enters (by_role textbox (codes "What needs to be done?")) title w (Shows t)
    pub switches :
        (s t : State) (w : PW.World) (f : FilterState)
        → Shows s w
        → step (user_switches_filter f) s ≡ some t
        → Clicks (by_role link (filter_name f)) w (Shows t)
    pub toggles :
        (s t : State) (w : PW.World) (i : ℕ)
        → Shows s w
        → step (user_toggles_item i) s ≡ some t
        → Clicks (item_box i) w (Shows t)
    pub toggles_all :
        (s t : State) (w : PW.World)
        → Shows s w
        → step user_toggles_all s ≡ some t
        → Clicks (by_role checkbox (codes "❯Mark all as complete")) w (Shows t)
    pub deletes :
        (s t : State) (w : PW.World) (i : ℕ)
        → Shows s w
        → step (user_deletes_item i) s ≡ some t
        → (PW.is_visible p (item_element i) w ≡ (ok true, w))
          × ((hovered deleted : PW.World) × (PW.hover p (item_element i) w ≡ (ok tt, hovered))
              × (PW.click p (item_delete i) hovered ≡ (ok tt, deleted))
              × Shows t deleted)
    pub edits :
        (s t : State) (w : PW.World) (i : ℕ) (new_text : Text)
        → Shows s w
        → IsTrimmed new_text
        → step (user_edits_item i new_text) s ≡ some t
        → (PW.is_visible p (item_title i) w ≡ (ok true, w))
          × ((editing : PW.World) × (PW.dblclick p (item_title i) w ≡ (ok tt, editing))
              × Enters (by_role textbox (codes "Edit")) new_text editing (Shows t))
    pub clears :
        (s t : State) (w : PW.World)
        → Shows s w
        → step user_clears_completed s ≡ some t
        → Clicks (by_role button (codes "Clear completed")) w (Shows t)

abbrev pub action_name : Action → Text
action_name (user_adds_item title) = codes "UserAddsItem"
action_name (user_switches_filter f) = codes "UserSwitchesFilter"
action_name (user_toggles_item i) = codes "UserTogglesItem"
action_name user_toggles_all = codes "UserTogglesAll"
action_name (user_deletes_item i) = codes "UserDeletesItem"
action_name (user_edits_item i new_text) = codes "UserEditsItem"
action_name user_clears_completed = codes "UserClearsCompleted"

module _ (AT : ArgType) where
  -- The argument at an index is a text.
  abbrev pub HasText : List AT.Arg → ℕ → Text → Type 0
  HasText args i t = (a : AT.Arg) × (get_elem? args i ≡ some a) × (AT.to_text a ≡ t)

  abbrev pub HasIndex : List AT.Arg → ℕ → Type 0
  HasIndex args i = AT.as_index (get_elem? args 0) ≡ i

  -- The arguments that the runner passes for the choices of an action.
  abbrev pub Encodes : Action → List AT.Arg → Type 0
  Encodes (user_adds_item title) args = HasText args 0 title
  Encodes (user_switches_filter f) args = HasText args 0 (filter_name f)
  Encodes (user_toggles_item i) args = HasIndex args i
  Encodes (user_deletes_item i) args = HasIndex args i
  Encodes (user_edits_item i new_text) args = HasIndex args i × HasText args 1 new_text
  Encodes _ args = Unit

  module _ (PW : Playwright) (p : PW.Page) where
    -- The registered function of an action, on the controller's role.
    abbrev pub perform : Action → List AT.Arg → Exec PW.World (Unit {0})
    perform a args =
        elim (registered (action_registry PW.World AT.Arg) (codes "TodoController")
          (action_name a)) [
            | none ↦ raise (codes "no such action")
            | some f ↦ f (controller_role PW AT p) args
          ]

  module _ (PW : Playwright) where
    -- A run of the runner on a controller and a view, each with its page, and the states of the view
    -- that it sees.
    unfoldable pub run_on :
        PW.Page → PW.Page → List (Action × List AT.Arg) → Exec (Model PW) (List ViewState)
    run_on controls views [] = pure []
    run_on controls views ((a, args) ∷ l) = do
      on_world PW (perform PW controls a args)
      after_action PW
      v ← on_world PW (get_state PW views)
      vs ← run_on controls views l
      pure (v ∷ vs)

    -- Both on one page.
    abbrev pub run : PW.Page → List (Action × List AT.Arg) → Exec (Model PW) (List ViewState)
    run p l = run_on p p l
