-- ===== src/TodoApp/Conforms/Sessions.antt =====
-- The runner's runs one after the other, in one browser and on one database: `init`, the actions,
-- `cleanup`.
pub mod Replies
pub mod Suite
use fizzbee_mbt_examples.Prelude.{
  List, [], ◌∷◌, Option, none, some, Bool, true, false, not, Text, codes, Exec, Outcome, ok, throw,
  raise, continue, ◌≡◌, refl, ap, ◌∙◌, map, ◌>>=◌, ◌>>◌, pure, if◌then◌else◌, ◌⊎◌, inl, inr,
}
use fizzbee_mbt_examples.Browser.{AriaRole, textbox, button, Locator, by_role, Playwright, ArgType}
use fizzbee_mbt_examples.TodoApp.Spec
use fizzbee_mbt_examples.TodoApp.Spec.{State, Action, Result}
use fizzbee_mbt_examples.TodoApp.Spec.Invariant.{Reachable}
use fizzbee_mbt_examples.TodoApp.Actions.{Reply}
use fizzbee_mbt_examples.TodoApp.Actions.Reading.Observed.{observed_result}
use fizzbee_mbt_examples.TodoApp.Lifecycle.{
  Sqlite, RoleAdapter, Model, new_role, on_world, app_url, db_path, role_init, role_open,
  role_close, delete_rows, clear_todos, init, cleanup,
}
use fizzbee_mbt_examples.TodoApp.Conforms.{IsTodoPage, run}
use fizzbee_mbt_examples.TodoApp.Conforms.Runs.{Run, run-replies}

module _ (PW : Playwright) (DB : Sqlite PW.World) where
  -- The database is opened, cleared and closed.
  pub record ClearsTodos (w : PW.World) (After : PW.World → Type 0) : Type 0 where
    pub db : DB.Db
    pub connected : PW.World
    pub patient : PW.World
    pub deleted : PW.World
    pub reset : PW.World
    pub closed : PW.World
    pub connects : DB.connect (db_path PW DB) w ≡ (ok db, connected)
    pub waits : DB.pragma db (codes "busy_timeout = 3000") connected ≡ (ok tt, patient)
    pub deletes : DB.run db (codes "DELETE FROM todos") patient ≡ (ok tt, deleted)
    pub resets :
        DB.run db (codes "DELETE FROM sqlite_sequence WHERE name='todos'") deleted ≡ (ok tt, reset)
    pub closes : DB.close db reset ≡ (ok tt, closed)
    pub after : After closed

  -- A user signs in on a page.
  pub record SignsIn (p : PW.Page) (w : PW.World) (After : PW.World → Type 0) : Type 0 where
    pub arrived : PW.World
    pub focused : PW.World
    pub named : PW.World
    pub proved : PW.World
    pub sent : PW.World
    pub signed_in : PW.World
    pub arrives : PW.goto p (app_url PW DB) w ≡ (ok tt, arrived)
    pub focuses : PW.click p (by_role textbox (codes "Email")) arrived ≡ (ok tt, focused)
    pub names :
        PW.fill p (by_role textbox (codes "Email")) (codes "fizzbee@example.org") focused
        ≡ (ok tt, named)
    pub proves :
        PW.fill p (by_role textbox (codes "Password")) (codes "FizzBeeRocks") named
        ≡ (ok tt, proved)
    pub sends : PW.click p (by_role button (codes "Sign In")) proved ≡ (ok tt, sent)
    pub waits : PW.wait_for p (by_role textbox (codes "Take a note...")) sent ≡ (ok tt, signed_in)
    pub after : After signed_in

  -- A browser is launched, with a context and a page in it.
  pub record Launches (w : PW.World) (After : PW.Browser → PW.Context → PW.Page → PW.World → Type 0)
      : Type 0 where
    pub browser : PW.Browser
    pub context : PW.Context
    pub page : PW.Page
    pub launched : PW.World
    pub prepared : PW.World
    pub opened : PW.World
    pub launches : PW.launch w ≡ (ok browser, launched)
    pub prepares : PW.new_context browser launched ≡ (ok context, prepared)
    pub opens : PW.new_page context prepared ≡ (ok page, opened)
    pub after : After browser context page opened

  -- The documented behaviour of browser, application and database. `Start` is a world without a
  -- browser, `Ready` one with a context in which a user is signed in, no page and no todo, and
  -- `Shows` one in which a page of that context shows a state.
  pub record IsHost (Start : PW.World → Type 0)
      (Ready : PW.Browser → PW.Context → PW.World → Type 0)
      (Shows : PW.Browser → PW.Context → PW.Page → State → PW.World → Type 0) : Type 0 where
    pub starts :
        (w : PW.World)
        → Start w
        → ClearsTodos w
            (λ w1. Launches w1 (λ b c p w2. SignsIn p w2 (λ w3. Shows b c p Spec.init w3)))
    pub reopens :
        (b : PW.Browser) (c : PW.Context) (w : PW.World)
        → Ready b c w
        → (p : PW.Page) × (w1 w2 : PW.World) × (PW.new_page c w ≡ (ok p, w1))
          × (PW.goto p (app_url PW DB) w1 ≡ (ok tt, w2))
          × Shows b c p Spec.init w2
    pub conforms : (b : PW.Browser) (c : PW.Context) (p : PW.Page) → IsTodoPage PW p (Shows b c p)
    pub closes :
        (b : PW.Browser) (c : PW.Context) (p : PW.Page) (s : State) (w : PW.World)
        → Shows b c p s w
        → (w1 : PW.World) × (PW.is_closed p w ≡ false)
          × (PW.close_page p w ≡ (ok tt, w1))
          × ClearsTodos w1 (Ready b c)
    pub ends :
        (b : PW.Browser) (c : PW.Context) (w : PW.World)
        → Ready b c w
        → ((p : PW.Page) → PW.is_closed p w ≡ true)
          × ((w1 w2 : PW.World) × (PW.close_context c w ≡ (ok tt, w1))
              × (PW.close_browser b w1 ≡ (ok tt, w2))
              × Start w2)

  abbrev pub role_with : PW.Browser → PW.Context → Option PW.Page → RoleAdapter PW DB
  role_with b c page = record { browser = some b; context = some c; page = page }

  -- An adapter between two runs: a new one, or one with a signed in context.
  abbrev pub IsBetween :
      (PW.World → Type 0) → (PW.Browser → PW.Context → PW.World → Type 0) → Model PW DB → Type 0
  IsBetween Start Ready m =
      ((m.role ≡ none) × Start m.world)
      ⊎ ((b : PW.Browser) × (c : PW.Context) × (old : Option PW.Page) × (m.role
            ≡ some (role_with b c old))
          × Ready b c m.world)

  abbrev pub page_of : Option (RoleAdapter PW DB) → Option PW.Page
  page_of none = none
  page_of (some r) = r.page

module _ (PW : Playwright) (AT : ArgType) (DB : Sqlite PW.World) where
  -- The actions of a run, on the page that `init` has opened.
  abbrev pub on_page :
      Option PW.Page → List (Action × List AT.Arg) → Exec (Model PW DB) (List Reply)
  on_page none l = raise (codes "no page")
  on_page (some p) l = on_world PW DB (run PW AT p l)

  unfoldable pub session : List (Action × List AT.Arg) → Exec (Model PW DB) (List Reply)
  session l = do init PW DB; rs ← (λ m. on_page (page_of PW DB m.role) l m); cleanup PW DB; pure rs

  unfoldable pub sessions :
      List (List (Action × List AT.Arg)) → Exec (Model PW DB) (List (List Reply))
  sessions [] = pure []
  sessions (l ∷ ls) = do rs ← session l; rest ← sessions ls; pure (rs ∷ rest)

  -- Runs that the specification allows, each from its initial state.
  pub data Runs : List (List (Action × List AT.Arg)) → List (List Result) → Type 0 where
    none_left : Runs [] []
    one_more :
        {l : List (Action × List AT.Arg)} {ls : List (List (Action × List AT.Arg))}
        {rs : List Result} {rss : List (List Result)} {u : State}
        → Run PW AT Spec.init l rs u
        → Runs ls rss
        → Runs (l ∷ ls) (rs ∷ rss)
