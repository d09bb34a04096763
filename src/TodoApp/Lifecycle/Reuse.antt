-- ===== src/TodoApp/Lifecycle/Reuse.antt =====
-- `init` of todo_adapters.ts after an `init` or a `cleanup` that failed.
use fizzbee_mbt_examples.Prelude.{none, some, Text, ok, throw, ◌≡◌, refl}
use fizzbee_mbt_examples.Browser.{Playwright}
use fizzbee_mbt_examples.TodoApp.Lifecycle.{
  Sqlite, RoleAdapter, new_role, role_init, clear_todos, init, role_open,
}

module _ (PW : Playwright) (DB : Sqlite PW.World) where
  abbrev pub signed_in : PW.Browser → PW.Context → PW.Page → RoleAdapter PW DB
  signed_in b c p = record { browser = some b; context = some c; page = some p }

  -- The first `init` with a database that is cleared and a browser that does not launch throws the
  -- launch's error. The adapter then has a role without a context, so the next `init` resolves,
  -- though there is no page: it leaves the adapter and the world as they are.
  pub init_after_failed_launch :
      (w : PW.World) (e : Text)
      → (clear_todos PW DB w).0 ≡ ok tt
      → (PW.launch (clear_todos PW DB w).1).0 ≡ throw e
      → ((init PW DB (record { role = none; world = w })).0 ≡ throw e)
        × ((init PW DB (record { role = none; world = w })).1.role ≡ some (new_role PW DB))
        × (init PW DB (init PW DB (record { role = none; world = w })).1
            ≡ (ok tt, (init PW DB (record { role = none; world = w })).1))
  unfolding init role_open role_init
  init_after_failed_launch w e cleared crashed = rw (cleared, crashed) (refl, refl, refl)
