-- ===== src/Etcd.antt =====
-- app/node/etcd: the store of clients, tunnels, listens and domains behind etcd.
pub mod Server
pub mod Keys
pub mod Store
pub mod Register
pub mod Watch
pub mod Runs
pub mod Directory
pub mod Listens
