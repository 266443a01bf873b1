-- ===== src/Storage/Online.antt =====
-- service/storage/online.go: the sessions of users in Redis. A session is a key that expires, and each
-- user, and each node for its sessions that are not authorized, has a sorted set of session keys, the
-- score of which is the second in which the session expires.
pub mod RedisIndex
pub mod Keys
pub mod Gateway
pub mod Scripts
pub mod Store
pub mod Sweeping
pub mod Lifetime
mod Sample
