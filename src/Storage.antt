-- ===== src/Storage.antt =====
-- src/core/storage: the flat index pool, the store over it and the index file.
pub mod Pool
pub mod Store
pub mod Serializer
pub mod Persist
