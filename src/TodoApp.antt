-- ===== src/TodoApp.antt =====
-- examples/todo-app: the adapter that drives the todo application's web page, in
-- typescript/fizztests, and its specification.
pub mod Spec
pub mod Format
pub mod Actions
pub mod Lifecycle
pub mod Runner
pub mod Conforms
mod Tests
