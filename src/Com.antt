-- ===== src/Com.antt =====
-- lib/com: where commands and responses travel, by Kafka or by HTTP.
pub mod Switch
pub mod Reader
pub mod Responses
pub mod Producers
