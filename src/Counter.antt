-- ===== src/Counter.antt =====
-- examples/fizzbee-mbt-quickstart/typescript: the interface of a counter, its specification
-- counter.fizz, its two implementations, the test adapter and the demonstration program.
pub mod Defs
pub mod Spec
pub mod Mem
pub mod Pg
pub mod Adapter
pub mod Demo
pub mod Runner
pub mod Tests
