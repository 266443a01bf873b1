-- ===== src/Nats.antt =====
-- service/natsx: the consumers of the message bus.
pub mod Idem
