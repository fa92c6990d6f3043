-- ===== src/DeviceGroups.antt =====
-- lib/devicegroups: a command for a device group is split into sub-tasks, whose results are collected
-- in a key-value store until the group is finished.
pub mod Attempts
pub mod Db
pub mod Storage
pub mod Services
pub mod SubTasks
pub mod Filtered
pub mod Results
pub mod Sequential
pub mod Commands
pub mod Reliable
pub mod Collect
pub mod Responses
pub mod Completion
pub mod Serial
pub mod RoundRobin
pub mod Sending
pub mod Tries
pub mod Spent
