-- ===== src/Monitor.antt =====
-- monitor/monitor.go: following one log.
pub mod Run
pub mod Reconstruct
pub mod Rollback
pub mod Download
pub mod Delivered
pub mod Live
pub mod Ends
pub mod Log
pub mod Reach
pub mod Success
mod Tests
