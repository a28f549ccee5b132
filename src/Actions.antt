-- ===== src/Actions.antt =====
-- apps/actions: events of the service, the webhooks and mails they cause, and the jobs that clean up.
pub mod Values
pub mod Rows
pub mod Backoff
pub mod Webhook
pub mod Delivery
pub mod Claims
pub mod Outbox
pub mod Batch
pub mod Redaction
pub mod Envelope
pub mod Email
pub mod Registry
pub mod Emit
pub mod Retention
pub mod Perform
