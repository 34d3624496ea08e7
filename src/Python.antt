-- ===== src/Python.antt =====
-- The language and its standard library, as far as the program uses them.
pub mod Exception
pub mod Exec
pub mod HttpClient
pub mod Equality
pub mod Dict
pub mod Json
pub mod Text
pub mod Secrets
pub mod PurePath
pub mod Base64
pub mod Base32
