-- ===== src/Jetcore.antt =====
-- The shared library that every adapter depends on (libs/jetcore).
pub mod Envelope
pub mod Crypto
pub mod Creds
pub mod Config
pub mod Platform
pub mod Registry
pub mod BusClient
pub mod Bus
