-- ===== src/KvStore.antt =====
-- kv-store/: the FastAPI application over a PostgreSQL primary with replicas.
pub mod Models
pub mod Status
pub mod Engine
pub mod Table
pub mod Pools
pub mod Handlers
pub mod Replies
pub mod Deletes
pub mod Cleanup
pub mod Backlog
pub mod Routing
pub mod Lifespan
pub mod Requests
pub mod Sees
pub mod Answers
pub mod Refinement
pub mod Program
mod Tests
