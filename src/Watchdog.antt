-- ===== src/Watchdog.antt =====
-- internal/watchdog: the agent's watch over its own resources.
pub mod Sentinel
