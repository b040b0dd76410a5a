-- ===== src/MessageQueue.antt =====
-- message_queue/: replication through a Kafka topic, which every follower consumes by itself.
pub mod Config
pub mod Topics
pub mod Producer
pub mod Follower
