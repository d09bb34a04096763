-- ===== src/TodoMvc.antt =====
-- examples/todomvc: the adapter that drives the TodoMVC web page, and its specification.
pub mod Spec
pub mod View
pub mod Controller
pub mod Lifecycle
pub mod Runner
pub mod Conforms
mod Tests
