-- ===== src/Storage.antt =====
-- crates/canopee-storage/src: signed objects, the directory that holds them, and the records
-- built on them.
pub mod Types
pub mod Object
pub mod Store
pub mod Pointer
pub mod Capability
pub mod Cache
