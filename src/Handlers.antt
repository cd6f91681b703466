-- ===== src/Handlers.antt =====
-- api/internal/handlers: what the requests do, once their sender is known.
pub mod Replies
pub mod Events
pub mod Access
pub mod Rollback
pub mod Instances
pub mod Sealing
pub mod Registration
pub mod Writes
pub mod Ownership
pub mod BulkRow
pub mod Bulk
pub mod Login
