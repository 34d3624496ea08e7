-- ===== src/HttpAdapter.antt =====
-- The adapter that calls an external REST API (adapters/http_adapter).
pub mod Payloads
pub mod Trigger
pub mod Entrypoint
pub mod Main
