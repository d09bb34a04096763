-- ===== src/Counter/Spec.antt =====
-- examples/fizzbee-mbt-quickstart/specs/simple-counter/counter.fizz: the specification that the
-- test runner compares an implementation with. `MAX` is an argument, `max`.
pub mod Range
use fizzbee_mbt_examples.Prelude.{ℕ, ◌≤◌, List, [], ◌∷◌, Option, none, some}
use fizzbee_mbt_examples.Prelude.Int.{ℤ, pos, ◌+ℤ◌, ◌-ℤ◌, min_ℤ, max_ℤ}

-- The atomic actions of the role `Counter`.
pub data Action : Type 0 where
  inc get dec : Action

abbrev pub max_value : ℤ
max_value = pos 3

-- One action: what it returns, and `self.value` after it.
unfoldable pub step : ℤ → Action → ℤ → Option ℤ × ℤ
unfolding ◌+ℤ◌ ◌-ℤ◌ min_ℤ max_ℤ
step max inc v = (none, min_ℤ (v +ℤ pos 1) max)
step max get v = (some v, v)
step max dec v = (none, max_ℤ (v -ℤ pos 1) (pos 0))

-- The results of a sequence of actions, and the last value.
unfoldable pub trace : ℤ → List Action → ℤ → List (Option ℤ) × ℤ
trace max [] v = ([], v)
trace max (a ∷ l) v = let (r, v') = step max a v in let (rs, w) = trace max l v' in (r ∷ rs, w)
