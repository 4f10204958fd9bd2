-- ===== src/Utils.antt =====
-- The package `utils`: the cache with expiring entries, the byte order of lengths, JSON.
pub mod Bytes
pub mod Cache
pub mod Json
pub mod Settings
pub mod Logs
pub mod Closer
pub mod Strs
pub mod Http
pub mod SyncMap
