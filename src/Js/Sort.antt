-- ===== src/Js/Sort.antt =====
-- `xs.sort((a, b) => a.key - b.key)`: a stable sort by a numeric key. Where the order is total a
-- stable sort has one result, which insertion computes.
pub mod Laws
use fizzbee_mbt_examples.Prelude.{
  List, [], ◌∷◌, Option, none, some, Bool, true, false, if◌then◌else◌,
}
use fizzbee_mbt_examples.Prelude.Int.{ℤ, ltb_ℤ}
use fizzbee_mbt_examples.Js.Numbers.{Number}

-- `a - b < 0`; a difference with `NaN` counts as 0.
abbrev pub before : Number → Number → Bool
before none b = false
before (some a) none = false
before (some a) (some b) = ltb_ℤ a b

module _ {A : Type 0} (key : A → Number) where
  -- An element goes behind those that do not come after it.
  unfoldable pub insert : A → List A → List A
  insert x [] = x ∷ []
  insert x (y ∷ ys) = if before (key y) (key x) then y ∷ insert x ys else x ∷ y ∷ ys

  unfoldable pub sort : List A → List A
  unfolding insert
  sort [] = []
  sort (x ∷ xs) = insert x (sort xs)
