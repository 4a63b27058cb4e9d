-- ===== src/Worker.antt =====
-- internal/worker/worker.go: the worker's dependencies and its small helpers.
pub mod ErrorText
pub mod Config
pub mod Attempts
pub mod Delay
pub mod Events
pub mod Process
pub mod Round
