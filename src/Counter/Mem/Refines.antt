-- ===== src/Counter/Mem/Refines.antt =====
-- `MemCounter` against counter.fizz.
use fizzbee_mbt_examples.Prelude.{ok, List, ◌≡◌, refl, ap, arith, map}
use fizzbee_mbt_examples.Prelude.Int.{ℤ, pos, ◌≤ℤ◌}
use fizzbee_mbt_examples.Counter.Spec
use fizzbee_mbt_examples.Counter.Spec.{Action, trace}
use fizzbee_mbt_examples.Counter.Spec.Range.{IsWithin}
use fizzbee_mbt_examples.Counter.Mem.{MemCounter, create, inc, dec, get, mem_counter}
use fizzbee_mbt_examples.Counter.Adapter.Refines.{Simulates, reply, perform_all, perform_all-trace}

-- The counter holds the specification's value, within the range.
pub record Matches (max v : ℤ) (c : MemCounter) : Type 0 where
  pub limit : c.limit ≡ max
  pub value : c.value ≡ v
  pub within : IsWithin max v

module _ (max v : ℤ) (c : MemCounter) (h : Matches max v c) where
  inc-step : (inc c).1 ≡ record c { value = (Spec.step max Spec.inc v).1 }
  unfolding inc Spec.step
  inc-step = ground arith

  dec-step : (dec c).1 ≡ record c { value = (Spec.step max Spec.dec v).1 }
  unfolding dec Spec.step
  dec-step = ground arith

  inc-Matches : Matches max (Spec.step max Spec.inc v).1 (inc c).1
  unfolding Spec.step
  inc-Matches = rw inc-step (record { limit = h.limit; value = refl; within = ground arith })

  dec-Matches : Matches max (Spec.step max Spec.dec v).1 (dec c).1
  unfolding Spec.step
  dec-Matches = rw dec-step (record { limit = h.limit; value = refl; within = ground arith })

pub mem_counter-Simulates : (max : ℤ) → Simulates max mem_counter (Matches max)
unfolding inc dec get
mem_counter-Simulates max = record {
  inc = λ v c h. (refl, inc-Matches max v c h);
  get = λ v c h. (ap ok h.value, h);
  dec = λ v c h. (refl, dec-Matches max v c h);
}

pub create-Matches : (max : ℤ) → pos 0 ≤ℤ max → Matches max (pos 0) (create max)
create-Matches max h = record { limit = refl; value = refl; within = ground arith }

module _ (Arg : Type 0) (max : ℤ) (l : List (Action × List Arg)) (h : pos 0 ≤ℤ max) where
  -- A new `MemCounter` with a limit of at least 0, driven through the adapter's registry by any
  -- sequence of actions, answers each as counter.fizz does from its initial state, and ends with
  -- the specification's value, which lies between 0 and the limit.
  pub perform_all-Matches :
      ((perform_all Arg mem_counter l (create max)).0
        ≡ map reply (trace max (map (λ x. x.0) l) (pos 0)).0)
      × Matches max
          (trace max (map (λ x. x.0) l) (pos 0)).1
          (perform_all Arg mem_counter l (create max)).1
  perform_all-Matches =
      perform_all-trace Arg mem_counter max (Matches max) (mem_counter-Simulates max) l (pos 0)
        (create max) (create-Matches max h)
