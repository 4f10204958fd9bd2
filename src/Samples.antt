-- ===== src/Samples.antt =====
-- Concrete values for the parameters of the development, and its tests.
pub mod Codec
pub mod Memory
pub mod Ascii
pub mod Lines
mod SettingsTests
mod RoutesTests
mod SetupTests
mod KickTests
mod RunsTests
pub mod Zipped
mod StreamTests
mod CacheTests
mod RpcTests
mod EtcdTests
mod NodeTests
mod QuicTests
mod SystemTests
mod UtilsTests
mod TokenTests
mod RootTests
mod PathTests
mod TransferTests
mod EnvelopeTests
