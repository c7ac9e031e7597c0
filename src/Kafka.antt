-- ===== src/Kafka.antt =====
-- services/workspace-service/internal/kafka: the consumers of the task and user topics.
pub mod Loop
pub mod Flush
pub mod TaskHandlers
pub mod UserHandlers
pub mod Accounts
pub mod Worker
