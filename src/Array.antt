-- ===== src/Array.antt =====
-- Arrays: the slabs of an array (array_slab.go, array_data_slab.go, array_metadata_slab.go).
pub mod Slab
pub mod Data
pub mod Meta
pub mod Tree
pub mod Ops
pub mod Root
