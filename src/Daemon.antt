-- ===== src/Daemon.antt =====
-- daemon/openrspd.c, the POSIX build: the process that owns the receiver.
pub mod Config
pub mod State
pub mod Stream
pub mod Snapshot
pub mod Radio
pub mod Release
pub mod Serve
pub mod Recovery
pub mod Core
pub mod Handlers
pub mod Ownership
pub mod Turns
pub mod Upkeep
pub mod Replies
pub mod Exclusion
pub mod Updating
pub mod Swapping
pub mod Leaving
pub mod Access
pub mod Transfer
pub mod Streaming
pub mod Lanes
pub mod Inventory
pub mod Programmed
pub mod Tuning
mod Tests
