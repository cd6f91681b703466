-- ===== src/Action.antt =====
-- How a Go method that calls PostgreSQL, RabbitMQ or SSH is modelled: a function from the
-- environment and the world to a result and the new world. What was written before an error
-- stays written.
mod Defs
pub mod Rules
unfoldable pub use Defs.*
