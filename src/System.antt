-- ===== src/System.antt =====
-- The parts together: what a client and a node do with each other's messages.
pub mod Connect
pub mod Join
pub mod Restart
pub mod Visit
pub mod Reconnect
pub mod Invokers
pub mod FirstNode
pub mod Listening
pub mod Kick
pub mod Forward
pub mod Paths
