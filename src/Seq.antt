-- ===== src/Seq.antt =====
-- module/chat/seq: the sequence numbers of a conversation.
pub mod Mongo
pub mod Dao
pub mod Watermarks
pub mod Redis
pub mod Allocator
mod Tests
