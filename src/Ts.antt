-- ===== src/Ts.antt =====
-- Package internal/ts: one tailnet, its connection state machine and the notifications that it
-- follows.
pub mod State
pub mod Suffix
pub mod Ipn
pub mod LogLine
pub mod SnapshotText
pub mod Processor
pub mod Host
pub mod Tailnet
pub mod Persist
pub mod Told
pub mod Start
pub mod Stop
pub mod Logout
pub mod React
pub mod Invariant
pub mod Watcher
