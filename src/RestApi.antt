-- ===== src/RestApi.antt =====
-- The REST API service (adapters/rest_api_service).
pub mod PendingReplies
pub mod Orders
pub mod Lifespan
