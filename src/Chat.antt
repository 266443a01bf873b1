-- ===== src/Chat.antt =====
-- service/chat: the gateway's connection state.
pub mod ConnManager
pub mod Registry
pub mod Relay
