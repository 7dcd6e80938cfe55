-- ===== src/Executor.antt =====
-- internal/executor: the execution of commands.
pub mod Output
pub mod Actions
pub mod Engine
pub mod Poller
