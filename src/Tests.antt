-- ===== src/Tests.antt =====
-- Concrete inputs: a store in memory, and the theorems applied to it.
pub mod Fixtures
mod Groups
mod Scheduling
mod Services
mod LastValues
mod Topics
mod Flaky
mod Engine
pub mod Work
mod Payload
mod Repository
mod Shards
mod Com
mod Producers
