-- ===== src/Storage.antt =====
-- service/storage: what the program keeps in Redis for a user.
pub mod Offline
pub mod Online
