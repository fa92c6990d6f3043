-- ===== src/Camunda.antt =====
-- lib/camunda: the client of the camunda engine.
pub mod TopicMutex
pub mod Completion
pub mod Fetch
pub mod Shards
pub mod Retry
