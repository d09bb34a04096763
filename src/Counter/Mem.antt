-- ===== src/Counter/Mem.antt =====
-- examples/fizzbee-mbt-quickstart/typescript/src/mem_counter.ts. A `number` is an integer; the
-- increments stay exact while the limit is a safe integer.
pub mod Refines
pub mod Bounds
use fizzbee_mbt_examples.Prelude.{Exec, Outcome, ok, if◌then◌else◌}
use fizzbee_mbt_examples.Prelude.Int.{ℤ, pos, ◌+ℤ◌, ◌-ℤ◌, ltb_ℤ}
use fizzbee_mbt_examples.Counter.Defs.{Counter}

pub record MemCounter : Type 0 where
  pub limit : ℤ
  pub value : ℤ

-- `new MemCounter(limit)`
abbrev pub create : ℤ → MemCounter
create limit = record { limit = limit; value = pos 0 }

unfoldable pub inc : Exec MemCounter (Unit {0})
unfolding ◌+ℤ◌
inc c = (ok tt, if ltb_ℤ c.value c.limit then record c { value = c.value +ℤ pos 1 } else c)

unfoldable pub dec : Exec MemCounter (Unit {0})
unfolding ◌-ℤ◌
dec c = (ok tt, if ltb_ℤ (pos 0) c.value then record c { value = c.value -ℤ pos 1 } else c)

unfoldable pub get : Exec MemCounter ℤ
get c = (ok c.value, c)

-- `MemCounter implements Counter`
abbrev pub mem_counter : Counter MemCounter
mem_counter = record { inc = inc; dec = dec; get = get }
