-- ===== src/Channel.antt =====
-- Channels: crates/core/src/channel_model.rs and crates/core/src/channel_service.rs.
pub mod Model
pub mod Service
pub mod Order
pub mod Cursors
pub mod Queue
pub mod Store
pub mod Changes
pub mod Reachable
mod Tests
