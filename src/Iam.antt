-- ===== src/Iam.antt =====
-- internal/iam: who may do what on the platform, and the one-time codes of its accounts.
pub mod Rbac
pub mod Totp
