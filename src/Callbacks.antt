-- ===== src/Callbacks.antt =====
-- src/modules/callbacks: what Safaricom posts, how it is stored once, and how it is processed.
pub mod Payload
pub mod Timestamps
pub mod Normalize
pub mod Ingest
pub mod Handlers
pub mod Dispatch
pub mod Poller
pub mod Webhook
pub mod Deliveries
pub mod Redaction
