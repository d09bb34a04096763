-- ===== src/TodoMvc/Lifecycle.antt =====
-- examples/todomvc/fizztests/playwright_env.ts and the class `TodomvcModelAdapter` of
-- todomvc_adapters.ts: one browser for all runs, a new page for each.
use fizzbee_mbt_examples.Prelude.{
  ℕ, List, [], ◌∷◌, Option, none, some, Text, codes, Exec, ok, pure, ◌>>=◌, ◌>>◌, if◌then◌else◌,
}
use fizzbee_mbt_examples.Browser.{Playwright}

abbrev pub get_test_options : List (Text × ℕ)
get_test_options =
    (codes "max-seq-runs", 1000) ∷ (codes "max-parallel-runs", 0) ∷ (codes "max-actions", 10) ∷ []

module _ (PW : Playwright) where
  open PW use {World, Page}

  pub record PlaywrightEnv : Type 0 where
    pub browser : PW.Browser
    pub context : PW.Context

  -- `PlaywrightEnv.create`
  unfoldable pub create : Exec World PlaywrightEnv
  create = do b ← PW.launch; c ← PW.new_context b; pure (record { browser = b; context = c })

  abbrev pub demo_url : Text
  demo_url = codes "https://demo.playwright.dev/todomvc/#/"

  unfoldable pub create_page : PlaywrightEnv → Exec World Page
  create_page e = do p ← PW.new_page e.context; PW.goto p demo_url; pure p

  unfoldable pub close_page : Page → Exec World (Unit {0})
  close_page p w =
      (if PW.is_closed p w then pure tt else (do PW.clear_local_storage p; PW.close_page p)) w

  -- Its two fields are always set.
  unfoldable pub close_all : PlaywrightEnv → Exec World (Unit {0})
  close_all e = do PW.close_context e.context; PW.close_browser e.browser

  -- The role adapters: `TodoModel` has no state, the other two hold their page.
  pub data RoleAdapter : Type 0 where
    todo_model : RoleAdapter
    todo_view : Page → RoleAdapter
    todo_controller : Page → RoleAdapter

  pub record ModelAdapter : Type 0 where
    pub playwright_env : Option PlaywrightEnv
    pub todomodel_role : Option RoleAdapter
    pub todoview_role : Option RoleAdapter
    pub todocontroller_role : Option RoleAdapter
    pub page : Option Page

  abbrev pub new_adapter : ModelAdapter
  new_adapter = record {
    playwright_env = none;
    todomodel_role = none;
    todoview_role = none;
    todocontroller_role = none;
    page = none;
  }

  pub record Model : Type 0 where
    pub self : ModelAdapter
    pub world : World

  abbrev pub on_world : {A : Type 0} → Exec World A → Exec Model A
  on_world m s = let (r, w) = m s.world in (r, record s { world = w })

  set_env : PlaywrightEnv → Exec Model PlaywrightEnv
  set_env e s = (ok e, record s { self = record s.self { playwright_env = some e } })

  -- `if (!this.playwrightEnv) { … }`
  the_env : Option PlaywrightEnv → Exec Model PlaywrightEnv
  the_env (some e) = pure e
  the_env none = do e ← on_world create; set_env e

  -- The page and the roles of a run.
  set_page : Page → Exec Model (Unit {0})
  set_page p s = (
    ok tt,
    record s {
      self = record {
        playwright_env = s.self.playwright_env;
        todomodel_role = some todo_model;
        todoview_role = some (todo_view p);
        todocontroller_role = some (todo_controller p);
        page = some p;
      };
    },
  )

  unfoldable pub init : Exec Model (Unit {0})
  unfolding set_env the_env set_page
  init s = (do e ← the_env s.self.playwright_env; p ← on_world (create_page e); set_page p) s

  settle_page : Option Page → Exec World (Unit {0})
  settle_page none = pure tt
  settle_page (some p) = PW.wait_for_dom_settled p 1

  unfoldable pub after_action : Exec Model (Unit {0})
  unfolding settle_page
  after_action s = on_world (settle_page s.self.page) s

  close_both : Option Page → Option PlaywrightEnv → Exec World (Unit {0})
  close_both (some p) (some e) = close_page p
  close_both _ _ = pure tt

  unfoldable pub cleanup : Exec Model (Unit {0})
  unfolding close_both
  cleanup s = on_world (close_both s.self.page s.self.playwright_env) s

  close_env : Option PlaywrightEnv → Exec World (Unit {0})
  close_env none = pure tt
  close_env (some e) = close_all e

  unfoldable pub cleanup_all : Exec Model (Unit {0})
  unfolding close_env
  cleanup_all s = on_world (close_env s.self.playwright_env) s

  unfoldable pub get_roles : Model → List (Text × Option RoleAdapter)
  get_roles s =
      (codes "TodoModel#0", s.self.todomodel_role)
      ∷ (codes "TodoView#0", s.self.todoview_role)
      ∷ (codes "TodoController#0", s.self.todocontroller_role)
      ∷ []
