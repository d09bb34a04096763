-- ===== src/TodoApp/Lifecycle.antt =====
-- examples/todo-app/typescript/fizztests/todo_adapters.ts: browser, pages and database of the
-- adapter: `init`, `open`, `close` and `closeAll` of `TodoAppRoleAdapter`, and `TodoModelAdapter`.
pub mod Reuse
use fizzbee_mbt_examples.Prelude.{
  ℕ, List, [], ◌∷◌, Option, none, some, Bool, true, false, not, Text, codes, Exec, Outcome, ok,
  throw, raise, pure, continue, ◌>>=◌, ◌>>◌, if◌then◌else◌,
}
use fizzbee_mbt_examples.Browser.{AriaRole, textbox, button, Locator, by_role, Playwright}

-- What is used of the package `better-sqlite3`, in the same world as the browser.
pub record Sqlite (World : Type 0) : Type 1 where
  pub Db : Type 0
  pub connect : Text → Exec World Db
  pub pragma : Db → Text → Exec World (Unit {0})
  pub run : Db → Text → Exec World (Unit {0})
  pub close : Db → Exec World (Unit {0})

abbrev pub get_test_options : List (Text × ℕ)
get_test_options =
    (codes "max-seq-runs", 1000) ∷ (codes "max-parallel-runs", 0) ∷ (codes "max-actions", 10) ∷ []

module _ (PW : Playwright) (DB : Sqlite PW.World) where
  pub record RoleAdapter : Type 0 where
    pub browser : Option PW.Browser
    pub context : Option PW.Context
    pub page : Option PW.Page

  abbrev pub new_role : RoleAdapter
  new_role = record { browser = none; context = none; page = none }

  -- The adapter, with the field `todoappRole`, and the world.
  pub record Model : Type 0 where
    pub role : Option RoleAdapter
    pub world : PW.World

  abbrev pub on_world : {A : Type 0} → Exec PW.World A → Exec Model A
  on_world m s = let (r, w) = m s.world in (r, record s { world = w })

  -- An assignment to the role's fields, or to `todoappRole`.
  abbrev pub set_role : RoleAdapter → Exec Model (Unit {0})
  set_role r s = (ok tt, record s { role = some r })

  abbrev pub app_url : Text
  app_url = codes "http://localhost:9100/"

  login : PW.Page → Exec PW.World (Unit {0})
  login p = do
    PW.goto p app_url
    PW.click p (by_role textbox (codes "Email"))
    PW.fill p (by_role textbox (codes "Email")) (codes "fizzbee@example.org")
    PW.fill p (by_role textbox (codes "Password")) (codes "FizzBeeRocks")
    PW.click p (by_role button (codes "Sign In"))
    PW.wait_for p (by_role textbox (codes "Take a note..."))

  -- `TodoAppRoleAdapter.init`, on a new role; each field is set as soon as its call is done.
  unfoldable pub role_init : Exec Model (Unit {0})
  unfolding login
  role_init = do
    b ← on_world PW.launch
    set_role (record new_role { browser = some b })
    c ← on_world (PW.new_context b)
    set_role (record { browser = some b; context = some c; page = none })
    p ← on_world (PW.new_page c)
    set_role (record { browser = some b; context = some c; page = some p })
    on_world (login p)

  -- `if (this.page && !this.page.isClosed()) { … }`
  close_page_if_open : Option PW.Page → Exec PW.World (Unit {0})
  close_page_if_open none w = pure tt w
  close_page_if_open (some p) w = (if PW.is_closed p w then pure tt else PW.close_page p) w

  close_context_if_any : Option PW.Context → Exec PW.World (Unit {0})
  close_context_if_any none = pure tt
  close_context_if_any (some c) = PW.close_context c

  close_browser_if_any : Option PW.Browser → Exec PW.World (Unit {0})
  close_browser_if_any none = pure tt
  close_browser_if_any (some b) = PW.close_browser b

  unfoldable pub role_close : RoleAdapter → Exec PW.World (Unit {0})
  unfolding close_page_if_open
  role_close r = close_page_if_open r.page

  unfoldable pub role_close_all : RoleAdapter → Exec PW.World (Unit {0})
  unfolding close_page_if_open close_context_if_any close_browser_if_any
  role_close_all r = do
    close_page_if_open r.page
    close_context_if_any r.context
    close_browser_if_any r.browser

  open_in : RoleAdapter → Option PW.Context → Exec Model (Unit {0})
  open_in r none = pure tt
  open_in r (some c) = do
    p ← on_world (PW.new_page c)
    set_role (record r { page = some p })
    on_world (PW.goto p app_url)

  -- `TodoAppRoleAdapter.open`
  unfoldable pub role_open : RoleAdapter → Exec Model (Unit {0})
  unfolding open_in
  role_open r = open_in r r.context

  abbrev pub db_path : Text
  db_path = codes "/Users/jp/src/todo-golang/test.db"

  -- The body of the `try` of `clearTodos`.
  unfoldable pub delete_rows : Exec PW.World (Unit {0})
  delete_rows = do
    db ← DB.connect db_path
    DB.pragma db (codes "busy_timeout = 3000")
    DB.run db (codes "DELETE FROM todos")
    DB.run db (codes "DELETE FROM sqlite_sequence WHERE name='todos'")
    DB.close db

  abbrev pub failed : Text
  failed = codes "Failed to clean up todos"

  report : Outcome (Unit {0}) × PW.World → Outcome (Unit {0}) × PW.World
  report (ok u, w) = (ok tt, w)
  report (throw e, w) = (throw failed, PW.console_error (codes "Failed to clean up todos:") e w)

  -- `clearTodos`
  unfoldable pub clear_todos : Exec PW.World (Unit {0})
  unfolding report
  clear_todos w = report (delete_rows w)

  init_role : Option RoleAdapter → Exec Model (Unit {0})
  init_role (some r) = role_open r
  init_role none = do on_world clear_todos; set_role new_role; role_init

  unfoldable pub init : Exec Model (Unit {0})
  unfolding init_role
  init s = init_role s.role s

  close_role : Option RoleAdapter → Exec PW.World (Unit {0})
  close_role none = pure tt
  close_role (some r) = role_close r

  unfoldable pub cleanup : Exec Model (Unit {0})
  unfolding close_role
  cleanup s = (do on_world (close_role s.role); on_world clear_todos) s

  close_role_all : Option RoleAdapter → Exec PW.World (Unit {0})
  close_role_all none = pure tt
  close_role_all (some r) = role_close_all r

  unfoldable pub cleanup_all : Exec Model (Unit {0})
  unfolding close_role_all
  cleanup_all s = on_world (close_role_all s.role) s

  unfoldable pub get_roles : Model → List (Text × Option RoleAdapter)
  get_roles s = (codes "TodoApp#0", s.role) ∷ []
