-- ===== src/TodoMvc/Conforms/Sessions.antt =====
-- The runner's runs one after the other, each on a page of its own in the one browser: `init`, the
-- actions, `cleanup`.
pub mod Suite
use fizzbee_mbt_examples.Prelude.{
  ◌⊎◌, inl, inr, List, [], ◌∷◌, Option, none, some, false, Text, codes, map_get, Exec, ok, raise,
  ◌≡◌, refl, ap, map, ◌>>=◌, ◌>>◌, pure,
}
use fizzbee_mbt_examples.Browser.{Playwright, ArgType}
use fizzbee_mbt_examples.TodoMvc.Spec
use fizzbee_mbt_examples.TodoMvc.Spec.{State, Action}
use fizzbee_mbt_examples.TodoMvc.Spec.Invariant.{Reach}
use fizzbee_mbt_examples.TodoMvc.View.{ViewState}
use fizzbee_mbt_examples.TodoMvc.View.Renders.{observed}
use fizzbee_mbt_examples.TodoMvc.Lifecycle
use fizzbee_mbt_examples.TodoMvc.Lifecycle.{
  PlaywrightEnv, RoleAdapter, todo_model, todo_view, todo_controller, Model, demo_url, create,
  create_page, init, cleanup, get_roles,
}
use fizzbee_mbt_examples.TodoMvc.Conforms.{IsTodoMvc, run_on}
use fizzbee_mbt_examples.TodoMvc.Conforms.Runs.{Run, run-observed}

module _ (AT : ArgType) (PW : Playwright) where
  -- A role that `getRoles` lists.
  abbrev pub listed : Model PW → Text → Option (RoleAdapter PW)
  listed m name = elim (map_get name (get_roles PW m)) [ none ↦ none | some role ↦ role ]

  -- The actions of a run, on the controller and the view that are listed; all three roles must be.
  abbrev pub on_roles :
      Option (RoleAdapter PW)
      → Option (RoleAdapter PW)
      → Option (RoleAdapter PW)
      → List (Action × List AT.Arg)
      → Exec (Model PW) (List ViewState)
  on_roles (some todo_model) (some (todo_view views)) (some (todo_controller controls)) l =
      run_on AT PW controls views l
  on_roles _ _ _ l = raise (codes "no such role")

  abbrev pub act : List (Action × List AT.Arg) → Exec (Model PW) (List ViewState)
  act l m =
      on_roles (listed m (codes "TodoModel#0")) (listed m (codes "TodoView#0"))
        (listed m (codes "TodoController#0")) l m

  unfoldable pub session : List (Action × List AT.Arg) → Exec (Model PW) (List ViewState)
  session l = do init PW; vs ← act l; cleanup PW; pure vs

  unfoldable pub sessions :
      List (List (Action × List AT.Arg)) → Exec (Model PW) (List (List ViewState))
  sessions [] = pure []
  sessions (l ∷ ls) = do vs ← session l; rest ← sessions ls; pure (vs ∷ rest)

-- The documented behaviour of the browser and of the application in it. `Start` is a world without
-- a browser, `Ready` one with an environment in which no page is open and nothing is stored, and
-- `Shows` one in which a page shows a state.
pub record IsHost (PW : Playwright) (Start : PW.World → Type 0)
    (Ready : PlaywrightEnv PW → PW.World → Type 0)
    (Shows : PlaywrightEnv PW → PW.Page → State → PW.World → Type 0) : Type 0 where
  pub launches :
      (w : PW.World)
      → Start w
      → (b : PW.Browser) × (c : PW.Context) × (w1 w2 : PW.World) × (PW.launch w ≡ (ok b, w1))
        × (PW.new_context b w1 ≡ (ok c, w2))
        × Ready (record { browser = b; context = c }) w2
  pub opens :
      (e : PlaywrightEnv PW) (w : PW.World)
      → Ready e w
      → (p : PW.Page) × (w1 w2 : PW.World) × (PW.new_page e.context w ≡ (ok p, w1))
        × (PW.goto p (demo_url PW) w1 ≡ (ok tt, w2))
        × Shows e p Spec.init w2
  pub conforms : (e : PlaywrightEnv PW) (p : PW.Page) → IsTodoMvc PW p (Shows e p)
  pub closes :
      (e : PlaywrightEnv PW) (p : PW.Page) (s : State) (w : PW.World)
      → Shows e p s w
      → (w1 w2 : PW.World) × (PW.is_closed p w ≡ false)
        × (PW.clear_local_storage p w ≡ (ok tt, w1))
        × (PW.close_page p w1 ≡ (ok tt, w2))
        × Ready e w2
  pub ends :
      (e : PlaywrightEnv PW) (w : PW.World)
      → Ready e w
      → (w1 w2 : PW.World) × (PW.close_context e.context w ≡ (ok tt, w1))
        × (PW.close_browser e.browser w1 ≡ (ok tt, w2))
        × Start w2

-- An adapter between two runs: one without an environment, or one with a ready one.
abbrev pub IsBetween :
    (PW : Playwright)
    → (PW.World → Type 0)
    → (PlaywrightEnv PW → PW.World → Type 0)
    → Model PW
    → Type 0
IsBetween PW Start Ready m =
    ((m.self.playwright_env ≡ none) × Start m.world)
    ⊎ ((e : PlaywrightEnv PW) × (m.self.playwright_env ≡ some e) × Ready e m.world)

-- Runs that the specification allows, each from its initial state.
pub data Runs (AT : ArgType)
    : List (List (Action × List AT.Arg)) → List (List Spec.View) → Type 0 where
  none_left : Runs AT [] []
  one_more :
      {l : List (Action × List AT.Arg)} {ls : List (List (Action × List AT.Arg))}
      {vs : List Spec.View} {vss : List (List Spec.View)} {u : State}
      → Run AT Spec.init l vs u
      → Runs AT ls vss
      → Runs AT (l ∷ ls) (vs ∷ vss)

module _ (AT : ArgType) (PW : Playwright) (Start : PW.World → Type 0)
    (Ready : PlaywrightEnv PW → PW.World → Type 0)
    (Shows : PlaywrightEnv PW → PW.Page → State → PW.World → Type 0)
    (H : IsHost PW Start Ready Shows) where
  abbrev set_up : PlaywrightEnv PW → PW.Page → PW.World → Model PW
  set_up e p w = record {
    self = record {
      playwright_env = some e;
      todomodel_role = some todo_model;
      todoview_role = some (todo_view p);
      todocontroller_role = some (todo_controller p);
      page = some p;
    };
    world = w;
  }

  abbrev IsOpened : Model PW → Type 0
  IsOpened m =
      (e : PlaywrightEnv PW) × (p : PW.Page) × (w : PW.World) × (init PW m ≡ (ok tt, set_up e p w))
      × Shows e p Spec.init w

  started-IsOpened : (m : Model PW) → m.self.playwright_env ≡ none → Start m.world → IsOpened m
  unfolding init create create_page
  started-IsOpened m has h =
      let (b, c, w1, w2, launches, prepares, ready) = H.launches m.world h in
      let e : PlaywrightEnv PW = record { browser = b; context = c } in
      let (p, w3, w4, makes, goes, shows) = H.opens e w2 ready in
      (e, p, w4, rw (has, launches, prepares) (rw (makes, goes) refl), shows)

  prepared-IsOpened :
      (m : Model PW) (e : PlaywrightEnv PW)
      → m.self.playwright_env ≡ some e
      → Ready e m.world
      → IsOpened m
  unfolding init create_page
  prepared-IsOpened m e has h =
      let (p, w1, w2, makes, goes, shows) = H.opens e m.world h in
      (e, p, w2, rw (has, makes, goes) refl, shows)

  init-IsOpened : (m : Model PW) → IsBetween PW Start Ready m → IsOpened m
  init-IsOpened m h = elim h [
    | inl (has, start) ↦ started-IsOpened m has start
    | inr (e, has, ready) ↦ prepared-IsOpened m e has ready
  ]

  cleanup-Ready :
      (e : PlaywrightEnv PW) (p : PW.Page) (s : State) (m : Model PW) (w : PW.World)
      → m.self ≡ (set_up e p w).self
      → Shows e p s m.world
      → (w' : PW.World) × (cleanup PW m ≡ (ok tt, record m { world = w' })) × Ready e w'
  unfolding cleanup Lifecycle.close_page
  cleanup-Ready e p s m w same h =
      let (w1, w2, is_open, clears, closes, ready) = H.closes e p s m.world h in
      (
        w2,
        rw (ap (λ a. a.page) same, ap (λ a. a.playwright_env) same, is_open, clears, closes) refl,
        ready,
      )

  session-observed :
      {l : List (Action × List AT.Arg)} {vs : List Spec.View} {u : State} (m : Model PW)
      → IsBetween PW Start Ready m
      → Run AT Spec.init l vs u
      → (m' : Model PW) × (session AT PW l m ≡ (ok (map observed vs), m'))
        × IsBetween PW Start Ready m'
  unfolding session get_roles
  session-observed {l} {vs} {u} m h r =
      let (e, p, w, set, shows) = init-IsOpened m h in
      let (m1, acted, same, last) =
        run-observed AT PW p (Shows e p) (H.conforms e p) (set_up e p w) refl Reach.start shows r in
      let (w', cleaned, ready) = cleanup-Ready e p u m1 w same last in
      (
        record m1 { world = w' },
        rw (set, acted, cleaned) refl,
        inr (e, ap (λ a. a.playwright_env) same, ready),
      )

  -- In a browser that behaves as documented, with an application that does as todomvc.fizz says and
  -- keeps its todos in the local storage, and an adapter without an environment, in a world without
  -- a browser, or with one, in a world with no page open and nothing stored: for any number of runs
  -- that the specification allows, whose titles have no white space at their ends, one after the
  -- other, each with `init` before it, its actions on the controller and `getState` on the view that
  -- `getRoles` then lists, and `cleanup` after it, everything resolves, the states that `getState`
  -- returns are in each run exactly the views of the specification from its initial state on, and
  -- the adapter is left as it may be before a run.
  pub sessions-observed :
      {ls : List (List (Action × List AT.Arg))} {vss : List (List Spec.View)} (m : Model PW)
      → IsBetween PW Start Ready m
      → Runs AT ls vss
      → (m' : Model PW) × (sessions AT PW ls m ≡ (ok (map (map observed) vss), m'))
        × IsBetween PW Start Ready m'
  unfolding sessions
  sessions-observed m h none_left = (m, refl, h)
  sessions-observed m h (one_more r rs) =
      let (m1, first, h1) = session-observed m h r in
      let (m2, others, h2) = sessions-observed m1 h1 rs in (m2, rw (first, others) refl, h2)
