-- ===== src/Kafka.antt =====
-- service/dispatcher/kafka: the names of the topics, their handlers and their creation.
pub mod Topics
pub mod Ensure
