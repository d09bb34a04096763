-- ===== src/Counter/Mem/Bounds.antt =====
-- The bounds of `MemCounter` for any limit, one below 0 included.
use fizzbee_mbt_examples.Prelude.{List, [], ◌∷◌, ◌≡◌, arith}
use fizzbee_mbt_examples.Prelude.Int.{ℤ, pos, ◌≤ℤ◌, max_ℤ}
use fizzbee_mbt_examples.Counter.Spec
use fizzbee_mbt_examples.Counter.Spec.{Action}
use fizzbee_mbt_examples.Counter.Mem.{MemCounter, create, inc, dec, get, mem_counter}
use fizzbee_mbt_examples.Counter.Adapter.{action_inc, action_get, action_dec}
use fizzbee_mbt_examples.Counter.Adapter.Refines.{perform, perform_all}

pub record IsBounded (limit : ℤ) (c : MemCounter) : Type 0 where
  pub kept : c.limit ≡ limit
  pub low : pos 0 ≤ℤ c.value
  pub high : c.value ≤ℤ max_ℤ limit (pos 0)

module _ (Arg : Type 0) (limit : ℤ) where
  perform-IsBounded :
      (a : Action) (args : List Arg) (c : MemCounter)
      → IsBounded limit c
      → IsBounded limit (perform Arg mem_counter a args c).1
  unfolding action_inc action_get action_dec inc dec get max_ℤ
  perform-IsBounded Spec.inc args c h = ground arith
  perform-IsBounded Spec.get args c h = h
  perform-IsBounded Spec.dec args c h = ground arith

  perform_all-keeps :
      (l : List (Action × List Arg)) (c : MemCounter)
      → IsBounded limit c
      → IsBounded limit (perform_all Arg mem_counter l c).1
  unfolding perform_all
  perform_all-keeps [] c h = h
  perform_all-keeps ((a, args) ∷ l) c h =
      perform_all-keeps l (perform Arg mem_counter a args c).1 (perform-IsBounded a args c h)

  -- Whatever the limit, also one below 0, and whatever the actions: the counter keeps its limit,
  -- and its value stays at least 0 and at most the greater of the limit and 0.
  pub perform_all-IsBounded :
      (l : List (Action × List Arg))
      → IsBounded limit (perform_all Arg mem_counter l (create limit)).1
  unfolding max_ℤ
  perform_all-IsBounded l = perform_all-keeps l (create limit) (ground arith)
