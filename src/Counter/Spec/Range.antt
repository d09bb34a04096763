-- ===== src/Counter/Spec/Range.antt =====
-- The assertion `WithinRange` of counter.fizz.
use fizzbee_mbt_examples.Prelude.{List, [], ◌∷◌, arith}
use fizzbee_mbt_examples.Prelude.Int.{ℤ, pos, ◌≤ℤ◌}
use fizzbee_mbt_examples.Counter.Spec.{Action, inc, get, dec, step, trace}

abbrev pub IsWithin : ℤ → ℤ → Type 0
IsWithin max v = (pos 0 ≤ℤ v) × (v ≤ℤ max)

pub step-IsWithin :
    (max : ℤ) (a : Action) (v : ℤ) → pos 0 ≤ℤ max → IsWithin max v → IsWithin max (step max a v).1
unfolding step
step-IsWithin max inc v m h = ground arith
step-IsWithin max get v m h = h
step-IsWithin max dec v m h = ground arith

-- From a value between 0 and a maximum that is at least 0, every sequence of the specification's
-- actions leads to such a value.
pub trace-IsWithin :
    (max : ℤ) (l : List Action) (v : ℤ)
    → pos 0 ≤ℤ max
    → IsWithin max v
    → IsWithin max (trace max l v).1
unfolding trace
trace-IsWithin max [] v m h = h
trace-IsWithin max (a ∷ l) v m h =
    trace-IsWithin max l (step max a v).1 m (step-IsWithin max a v m h)
