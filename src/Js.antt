-- ===== src/Js.antt =====
-- What the adapters use of JavaScript's standard library: strings, numbers, and sorting.
pub mod Strings
pub mod Numbers
pub mod Sort
