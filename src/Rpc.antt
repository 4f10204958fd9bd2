-- ===== src/Rpc.antt =====
-- The package `rpc`: messages, frames, the calls that wait for a response, and the routes.
pub mod Models
pub mod Records
pub mod InvokePath
pub mod Invoker
pub mod Frame
pub mod Calls
pub mod Envelope
pub mod Route
