-- ===== src/Payments.antt =====
-- src/modules/payments: the two services that open transactions, and what they ask of Safaricom.
pub mod Safaricom
pub mod B2c
pub mod StkPush
pub mod Messages
pub mod DarajaClient
