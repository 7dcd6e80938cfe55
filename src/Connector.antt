-- ===== src/Connector.antt =====
-- internal/connector: the platform's side of the agents' connections, part by part.
pub mod Session
pub mod Mailbox
pub mod Bootstrap
pub mod Dispatch
pub mod Server
