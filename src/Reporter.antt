-- ===== src/Reporter.antt =====
-- internal/reporter: the queues that lead off the host.
pub mod Wal
pub mod Metrics
pub mod Replay
