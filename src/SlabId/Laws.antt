-- ===== src/SlabId/Laws.antt =====
-- Round trips and the order of slab IDs (slab_id.go).
use Prim.Native.Nat.{compare as nat_compare}
use atree.Prelude.{
  ℕ, ◌+◌, ◌<◌, ◌≤◌, ◌%◌, ◌≡◌, ◌↔◌, refl, true, List, ◌++◌, arith, length, length-drop, drop,
  u64_mod, add64, lt→ltb,
}
use atree.Bytes.{
  Bytes8, IsByte8, to_list, be_uint64-put_uint64, be_uint64, compare_bytes-be_uint64,
  put_uint64-IsByte8, then_compare, of_list, Bytes8_eq_iff,
}
use atree.Ids.{SlabId}
use atree.Errors.{ok, err, new_slab_id_error}
use atree.SlabId.{
  next, new_slab_id_from_raw_bytes, to_raw_bytes, address_as_uint64, index_as_uint64, compare,
  slab_id_length, equal, slab_id_to_value_id,
}

-- Writing an ID into a buffer of sixteen bytes or more keeps the length of the buffer and the
-- bytes behind the first sixteen, and NewSlabIDFromRawBytes reads the ID back from it.
pub from_raw-to_raw :
    (id : SlabId) (b : List ℕ)
    → slab_id_length ≤ length b
    → (buf : List ℕ) × (to_raw_bytes id b ≡ ok (buf, slab_id_length))
      × (length buf ≡ length b)
      × (drop slab_id_length buf ≡ drop slab_id_length b)
      × (new_slab_id_from_raw_bytes buf ≡ ok id)
unfolding to_raw_bytes new_slab_id_from_raw_bytes of_list
from_raw-to_raw id b h = (
  to_list id.address ++ (to_list id.index ++ drop slab_id_length b),
  ground arith,
  omega (arith, length-drop 16 b),
  refl,
  ground arith,
)

-- ToRawBytes into, and NewSlabIDFromRawBytes from, a buffer of fewer than sixteen bytes both
-- return a slab ID error.
pub raw_bytes-short :
    (id : SlabId) (b : List ℕ)
    → length b < slab_id_length
    → (to_raw_bytes id b ≡ err new_slab_id_error)
      × (new_slab_id_from_raw_bytes b ≡ err new_slab_id_error)
unfolding to_raw_bytes new_slab_id_from_raw_bytes
raw_bytes-short id b h = (rw (lt→ltb _ _ h), rw (lt→ltb _ _ h))

-- The index after `index` is the next number, modulo 2 ^ 64.
pub be_uint64-next : (index : Bytes8) → be_uint64 (next index) ≡ (be_uint64 index + 1) % u64_mod
unfolding next add64
be_uint64-next index = omega (arith, be_uint64-put_uint64 ((be_uint64 index + 1) % u64_mod))

pub next-IsByte8 : (index : Bytes8) → IsByte8 (next index)
unfolding next
next-IsByte8 index = put_uint64-IsByte8 _

-- On IDs of bytes, Compare orders by the addresses as numbers, and under one address by the
-- indexes as numbers.
pub compare-numbers :
    (x y : SlabId)
    → IsByte8 x.address
    → IsByte8 x.index
    → IsByte8 y.address
    → IsByte8 y.index
    → compare x y
      ≡ then_compare
          (nat_compare (address_as_uint64 x) (address_as_uint64 y))
          (nat_compare (index_as_uint64 x) (index_as_uint64 y))
unfolding compare address_as_uint64 index_as_uint64
compare-numbers x y xa xi ya yi = rw (
  compare_bytes-be_uint64 x.address y.address xa ya,
  compare_bytes-be_uint64 x.index y.index xi yi,
)

-- A value ID is equal to exactly the slab ID that it was made of.
pub equal-slab_id_to_value_id : (x y : SlabId) → (equal (slab_id_to_value_id x) y ≡ true) ↔ (x ≡ y)
unfolding equal slab_id_to_value_id
equal-slab_id_to_value_id x y =
    ground (arith, Bytes8_eq_iff x.address y.address, Bytes8_eq_iff x.index y.index)
