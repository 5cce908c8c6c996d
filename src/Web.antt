-- ===== src/Web.antt =====
-- web/: the stores of the local web UI, its schemas, its handlers, and their interleavings.
pub mod Session
pub mod LastResult
pub mod Schemas
pub mod Handler
pub mod Replies
pub mod App
pub mod System
pub mod Production
pub mod Server
pub mod Invariant
pub mod Laws
pub mod Explained
pub mod Sample
mod Tests
pub mod Connecting
pub mod Disconnected
pub mod Schedules
pub mod Races
pub mod Refinement
