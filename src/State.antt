-- ===== src/State.antt =====
-- monitor/fileutils.go, monitor/fsstate.go, monitor/sthdir.go and monitor/statedir.go: the state on
-- disk.
pub mod Files
pub mod Throughout
pub mod LogFiles
pub mod Saved
pub mod Migrated
pub mod Memory
mod Tests
