-- ===== src/Domain.antt =====
-- services/workspace-service/internal/domain: the data that the layers exchange and the interfaces
-- between them. A repository or a cache is a record of actions over a world `W`, which stands for
-- PostgreSQL, Redis, Kafka and the clock. `time.Time` is a count of nanoseconds from its zero
-- value.
pub mod Task
pub mod Workspace
pub mod User
pub mod Project
pub mod Event
