-- ===== src/TodoApp/Conforms/Sessions/Replies.antt =====
-- Runs one after the other with `init` and `cleanup` of TodoApp/Lifecycle, beside todo.fizz.
use fizzbee_mbt_examples.Prelude.{List, Option, none, some, ok, ◌≡◌, refl, map, inl, inr}
use fizzbee_mbt_examples.Browser.{Playwright, ArgType}
use fizzbee_mbt_examples.TodoApp.Spec
use fizzbee_mbt_examples.TodoApp.Spec.{State, Action, Result}
use fizzbee_mbt_examples.TodoApp.Spec.Invariant.{Reachable}
use fizzbee_mbt_examples.TodoApp.Actions.Reading.Observed.{observed_result}
use fizzbee_mbt_examples.TodoApp.Lifecycle.{
  Sqlite, Model, role_init, role_open, role_close, delete_rows, clear_todos, init, cleanup,
}
use fizzbee_mbt_examples.TodoApp.Conforms.Runs.{Run, run-replies}
use fizzbee_mbt_examples.TodoApp.Conforms.Sessions.{
  ClearsTodos, IsHost, role_with, IsBetween, session, sessions, Runs, none_left, one_more,
}

module _ (PW : Playwright) (AT : ArgType) (DB : Sqlite PW.World) where
  cleared-eq :
      (w : PW.World) (After : PW.World → Type 0) (h : ClearsTodos PW DB w After)
      → clear_todos PW DB w ≡ (ok tt, h.closed)
  unfolding clear_todos delete_rows
  cleared-eq w After h = rw (h.connects, h.waits, h.deletes, h.resets, h.closes) refl

  module _ (Start : PW.World → Type 0) (Ready : PW.Browser → PW.Context → PW.World → Type 0)
      (Shows : PW.Browser → PW.Context → PW.Page → State → PW.World → Type 0)
      (H : IsHost PW DB Start Ready Shows) where
    abbrev IsOpened : Model PW DB → Type 0
    IsOpened m =
        (b : PW.Browser) × (c : PW.Context) × (p : PW.Page) × (w : PW.World) × (init PW DB m
          ≡ (ok tt, record { role = some (role_with PW DB b c (some p)); world = w }))
        × Shows b c p Spec.init w

    started-IsOpened : (m : Model PW DB) → m.role ≡ none → Start m.world → IsOpened m
    unfolding init role_init
    started-IsOpened m has h =
        let k = H.starts m.world h in
        let l = k.after in
        let s = l.after in
        (
          l.browser,
          l.context,
          l.page,
          s.signed_in,
          rw (has, cleared-eq m.world _ k, l.launches, l.prepares, l.opens)
              (rw (s.arrives, s.focuses, s.names, s.proves, s.sends, s.waits) refl),
          s.after,
        )

    signed_in-IsOpened :
        (m : Model PW DB) (b : PW.Browser) (c : PW.Context) (old : Option PW.Page)
        → m.role ≡ some (role_with PW DB b c old)
        → Ready b c m.world
        → IsOpened m
    unfolding init role_open
    signed_in-IsOpened m b c old has h =
        let (p, w1, w2, makes, goes, shows) = H.reopens b c m.world h in
        (b, c, p, w2, rw (has, makes, goes) refl, shows)

    init-IsOpened : (m : Model PW DB) → IsBetween PW DB Start Ready m → IsOpened m
    init-IsOpened m h = elim h [
      | inl (has, start) ↦ started-IsOpened m has start
      | inr (b, c, old, has, ready) ↦ signed_in-IsOpened m b c old has ready
    ]

    cleanup-Ready :
        (b : PW.Browser) (c : PW.Context) (p : PW.Page) (s : State) (w : PW.World)
        → Shows b c p s w
        → (w' : PW.World) × (cleanup PW DB
              (record { role = some (role_with PW DB b c (some p)); world = w })
            ≡ (ok tt, record { role = some (role_with PW DB b c (some p)); world = w' }))
          × Ready b c w'
    unfolding cleanup role_close
    cleanup-Ready b c p s w h =
        let (w1, is_open, closes, k) = H.closes b c p s w h in
        (k.closed, rw (is_open, closes, cleared-eq w1 (Ready b c) k) refl, k.after)

    session-replies :
        {l : List (Action × List AT.Arg)} {rs : List Result} {u : State} (m : Model PW DB)
        → IsBetween PW DB Start Ready m
        → Run PW AT Spec.init l rs u
        → (m' : Model PW DB) × (session PW AT DB l m ≡ (ok (map observed_result rs), m'))
          × IsBetween PW DB Start Ready m'
    unfolding session
    session-replies {l} {rs} {u} m h r =
        let (b, c, p, w, opened, shows) = init-IsOpened m h in
        let (w1, acted, last) =
          run-replies PW AT p (Shows b c p) (H.conforms b c p) w Reachable.start shows r in
        let (w2, cleaned, ready) = cleanup-Ready b c p u w1 last in
        (
          record { role = some (role_with PW DB b c (some p)); world = w2 },
          rw (opened, acted, cleaned) refl,
          inr (b, c, some p, refl, ready),
        )

    -- In a browser and with a database that behave as documented, with an application that does as
    -- todo.fizz says, and an adapter that is new, in a world without a browser, or that has a signed
    -- in context, in a world with no page and no todo: for any number of runs that the specification
    -- allows, one after the other, each with `init` before it and `cleanup` after it, everything
    -- resolves, the replies are in each run exactly the results of the specification from its initial
    -- state on, and the adapter is left as it may be before a run.
    pub sessions-replies :
        {ls : List (List (Action × List AT.Arg))} {rss : List (List Result)} (m : Model PW DB)
        → IsBetween PW DB Start Ready m
        → Runs PW AT DB ls rss
        → (m' : Model PW DB) × (sessions PW AT DB ls m ≡ (ok (map (map observed_result) rss), m'))
          × IsBetween PW DB Start Ready m'
    unfolding sessions
    sessions-replies m h none_left = (m, refl, h)
    sessions-replies m h (one_more r rs) =
        let (m1, first, h1) = session-replies m h r in
        let (m2, others, h2) = sessions-replies m1 h1 rs in (m2, rw (first, others) refl, h2)
