-- ===== src/Store.antt =====
-- The database (prisma/schema.prisma) and the messages that leave the process, and the two ways in
-- which services use them: a `$transaction` that rolls back, and single statements that stay.
pub mod Accounts
pub mod Rows
pub mod Tx
pub mod Action
pub mod Invariants
pub mod Tables
pub mod Outcomes
pub mod Updates
