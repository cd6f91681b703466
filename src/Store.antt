-- ===== src/Store.antt =====
-- internal/db/store.go: each method of `Store` is an action over the tables. A SQL statement is
-- one call of the environment, and does to the tables what PostgreSQL documents, with the keys
-- and the constraints of internal/db/migrations. Its text, the encoding of its arguments and the
-- width of its INT columns are not modelled.
pub mod Users
pub mod Instances
pub mod Events
pub mod Jobs
pub mod Rollup
