-- ===== src/Counter/Demo/Shown.antt =====
-- What the demonstration prints.
use fizzbee_mbt_examples.Prelude.{List, ◌∷◌, codes, ok, ◌≡◌, refl}
use fizzbee_mbt_examples.Prelude.Int.{ℤ, pos}
use fizzbee_mbt_examples.Counter.Defs.{Counter}
use fizzbee_mbt_examples.Counter.Spec
use fizzbee_mbt_examples.Counter.Adapter.Refines.{Simulates}
use fizzbee_mbt_examples.Counter.Demo.{Line, log_value, exercise}

-- The lines of a counter with limit 5, the newest first.
abbrev pub counted : List Line → List Line
counted console =
    log_value (codes "After inc at limit (should still be 5):") (pos 5)
    ∷ log_value (codes "After 3 more inc (should be at limit 5):") (pos 5)
    ∷ log_value (codes "After dec:") (pos 2)
    ∷ log_value (codes "After 2 more inc:") (pos 3)
    ∷ log_value (codes "After inc:") (pos 1)
    ∷ log_value (codes "Initial value:") (pos 0)
    ∷ console

-- The demonstration of any counter that does as counter.fizz does with the maximum 5, from a state
-- where it stands at 0: it resolves, prints 0, 1, 3, 2, 5 and 5 with their labels, and leaves the
-- counter at 5.
pub exercise-shown :
    {S : Type 0} (c : Counter S) (R : ℤ → S → Type 0) (w : S) (console : List Line)
    → Simulates (pos 5) c R
    → R (pos 0) w
    → ((exercise c (record { world = w; console = console })).0 ≡ ok tt)
      × ((exercise c (record { world = w; console = console })).1.console ≡ counted console)
      × R (pos 5) (exercise c (record { world = w; console = console })).1.world
unfolding exercise Spec.step
exercise-shown c R w console sim h0 =
    let (e1, h1) = sim.get (pos 0) _ h0 in
    let (e2, h2) = sim.inc (pos 0) _ h1 in
    let (e3, h3) = sim.get (pos 1) _ h2 in
    let (e4, h4) = sim.inc (pos 1) _ h3 in
    let (e5, h5) = sim.inc (pos 2) _ h4 in
    let (e6, h6) = sim.get (pos 3) _ h5 in
    let (e7, h7) = sim.dec (pos 3) _ h6 in
    let (e8, h8) = sim.get (pos 2) _ h7 in
    let (e9, h9) = sim.inc (pos 2) _ h8 in
    let (e10, h10) = sim.inc (pos 3) _ h9 in
    let (e11, h11) = sim.inc (pos 4) _ h10 in
    let (e12, h12) = sim.get (pos 5) _ h11 in
    let (e13, h13) = sim.inc (pos 5) _ h12 in
    let (e14, h14) = sim.get (pos 5) _ h13 in
    rw (e1, e2, e3, e4, e5, e6, e7, e8, e9, e10, e11, e12, e13, e14) (refl, refl, h14)
