-- ===== src/Ids.antt =====
-- The identifiers of slabs (slab_id.go, value_id.go): their data, and `==` on them.
use atree.Prelude.{◌≡◌, ◌↔◌, Bool, true, ◌&&◌, arith}
use atree.Bytes.{Bytes8, Bytes8_eq, undefined, Bytes8_eq_iff}

-- `Address` and `SlabIndex` are both `[8]byte`.
pub record SlabId : Type 0 where
  pub address : Bytes8
  pub index : Bytes8

abbrev pub slab_id_undefined : SlabId
slab_id_undefined = record { address = undefined; index = undefined }

-- `==` on slab IDs.
unfoldable pub SlabId_eq : SlabId → SlabId → Bool
SlabId_eq x y = Bytes8_eq x.address y.address && Bytes8_eq x.index y.index

pub SlabId_eq_iff : (x y : SlabId) → (SlabId_eq x y ≡ true) ↔ (x ≡ y)
unfolding SlabId_eq
SlabId_eq_iff x y = ground (arith, Bytes8_eq_iff x.address y.address, Bytes8_eq_iff x.index y.index)
