-- ===== src/Stream.antt =====
-- internal/stream/kafka.go: the broker list, the topics, the producer, and the consumer's treatment of a record.
pub mod Brokers
pub mod Producer
pub mod Consumer
pub mod Pool
pub mod Clients
