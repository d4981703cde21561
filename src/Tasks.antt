-- ===== src/Tasks.antt =====
-- Host tasks: the commands a host offers (internal/tasks/tasks.go), their runs in the collector's
-- database (internal/store/tasks.go and internal/api/tasks.go) and the agent that runs them
-- (agent/tasks.go).
pub mod Offer
pub mod Runs
pub mod Output
pub mod Kept
pub mod Server
pub mod Reported
pub mod Saved
