-- ===== src/Tenants.antt =====
-- src/modules/tenants: tenants, their shortcodes, their credentials and their status.
pub mod Access
pub mod ShortcodeRows
pub mod Shortcodes
pub mod Schemas
pub mod Status
pub mod Credentials
pub mod Onboarding
