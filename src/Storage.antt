-- ===== src/Storage.antt =====
-- storage.go: the storage of slabs and what it stands on.
pub mod Base
pub mod Interface
pub mod Persistent
pub mod Basic
pub mod Ledger
pub mod Retrieve
pub mod Commit
pub mod View
pub mod Reads
pub mod Keys
