-- ===== src/WebhookListener.antt =====
-- The adapter that turns webhooks into write commands (adapters/webhook_listener).
pub mod App
pub mod Lifespan
