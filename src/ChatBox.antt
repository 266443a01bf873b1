-- ===== src/ChatBox.antt =====
-- module/chatBox: the inbox of a team of agents.
pub mod Projector
