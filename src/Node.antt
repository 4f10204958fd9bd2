-- ===== src/Node.antt =====
-- app/node/node.go: a node's handlers for its invokers and for HTTP requests.
pub mod Peers
pub mod Login
pub mod Token
pub mod Transfer
pub mod Transport
pub mod HttpRoot
pub mod Handlers
pub mod Setup
pub mod Response
pub mod Routes
pub mod Adapter
pub mod ListenAdd
