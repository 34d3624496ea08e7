-- ===== src/Tests.antt =====
-- Concrete libraries and worlds, and the properties at concrete inputs.
pub mod Characters
pub mod Codec
pub mod Libraries
pub mod World
pub mod Bus
pub mod Publishing
pub mod Reading
pub mod Directory
pub mod Files
pub mod Commands
pub mod Handlers
pub mod Orders
pub mod Adapters
pub mod Processes
pub mod Connection
pub mod Liveness
