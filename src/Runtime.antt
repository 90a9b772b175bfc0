-- ===== src/Runtime.antt =====
-- crates/canopee-runtime/src and the sweep of crates/canopee-node/src/lib.rs: one node, which keeps
-- objects, serves them to peers and evicts what it holds for others.
pub mod SharedSet
pub mod Node
pub mod Network
pub mod Fetching
pub mod Records
pub mod Syncing
pub mod Owned
pub mod DeviceLists
pub mod Devices
pub mod Sealing
pub mod Pairing
