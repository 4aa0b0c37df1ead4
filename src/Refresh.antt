-- ===== src/Refresh.antt =====
-- internal/app/change_hints.go: hints of change, and the scheduler that merges them into requests.
pub mod Reasons
pub mod WatchedSet
pub mod Scheduler
pub mod Calls
