-- ===== src/DbAdapter.antt =====
-- The database adapter (adapters/db_adapter_mysql).
pub mod Payloads
pub mod Write
pub mod Cdc
pub mod Entrypoint
pub mod Main
