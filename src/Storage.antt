-- ===== src/Storage.antt =====
-- The copy-on-write store and the tree over it: 01-btree/src/storage.
pub mod Entries
pub mod Store
pub mod Fresh
pub mod Fuel
pub mod Put
pub mod PutGet
pub mod System
pub mod Engine
pub mod Tree
