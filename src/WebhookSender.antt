-- ===== src/WebhookSender.antt =====
-- The adapter that relays events to an external address (adapters/webhook_sender).
pub mod Relay
pub mod Entrypoint
pub mod Main
