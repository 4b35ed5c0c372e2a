-- ===== src/Sessions.antt =====
-- Sessions and accounts (src/modules/auth): refresh tokens, one-time tokens and AuthService.
pub mod Refresh
pub mod OneTime
pub mod Auth
pub mod Routes
