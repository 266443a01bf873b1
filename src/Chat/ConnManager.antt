-- ===== src/Chat/ConnManager.antt =====
-- service/chat/conn_manager.go: the sockets of one gateway, indexed by snowflake id and by user.
pub mod Index
pub mod State
pub mod Ops
pub mod Removal
pub mod Linked
pub mod Room
pub mod Invariant
pub mod Adding
pub mod Removing
pub mod Users
pub mod History
pub mod Capacity
pub mod Expiry
pub mod Reads
pub mod Sharing
mod Tests
