-- ===== src/Server.antt =====
-- src/openlithohub/server: job states, the job store and the runtime.
pub mod Schemas
pub mod JobStore
pub mod Runtime
pub mod Worker
pub mod Lifecycle
pub mod SqliteStore
pub mod Examples
