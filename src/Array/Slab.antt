-- ===== src/Array/Slab.antt =====
-- The data of array slabs (array_slab.go and the struct types of array_data_slab.go and
-- array_metadata_slab.go).
use atree.Prelude.{ℕ, Bool, Option, List}
use atree.Ids.{SlabId}

pub record ArraySlabHeader : Type 0 where
  pub slab_id : SlabId
  pub size : ℕ
  pub count : ℕ

-- `E` is the type of storables, and `X` that of the extra data.
pub record ArrayDataSlab (E X : Type 0) : Type 0 where
  pub next : SlabId
  pub header : ArraySlabHeader
  pub elements : List E
  pub extra_data : Option X
  pub inlined : Bool

pub record ArrayMetaDataSlab (X : Type 0) : Type 0 where
  pub header : ArraySlabHeader
  pub children_headers : List ArraySlabHeader
  pub children_count_sum : List ℕ
  pub extra_data : Option X

-- What a storage of slabs holds; `other` is a slab of another kind.
pub data Slab (E X O : Type 0) : Type 0 where
  data_slab : ArrayDataSlab E X → Slab E X O
  meta_slab : ArrayMetaDataSlab X → Slab E X O
  other : O → Slab E X O
