-- ===== src/Platform.antt =====
-- internal/platform/store.go: the database of the platform, as the tables that its statements read
-- and write, and the consumer of its outbox.
pub mod Commands
pub mod Enrollment
