-- ===== src/FileStorage.antt =====
-- The file storage adapter (adapters/file_storage_adapter).
pub mod FileSystem
pub mod Paths
pub mod RecentWrites
pub mod Payloads
pub mod Commands
pub mod CreateWatch
pub mod Entrypoint
pub mod Main
