-- ===== src/SlabId.antt =====
-- slab_id.go and value_id.go: the operations on identifiers.
pub mod Laws
use Prim.Native.Nat.{Ordering}
use atree.Prelude.{
  ℕ, ◌+◌, ◌≡◌, Bool, List, [], ◌∷◌, ◌++◌, Option, none, some, arith, if◌then◌else◌, ltb, length,
  drop, add64, ◌&&◌,
}
use atree.Bytes.{
  Bytes8, to_list, undefined, be_uint64, put_uint64, Bytes8_eq, compare_bytes, then_compare,
  of_list,
}
use atree.Ids.{SlabId, slab_id_undefined, SlabId_eq}
use atree.Errors.{Result, ok, err, panic, new_slab_id_error}

abbrev pub slab_id_length : ℕ
slab_id_length = 8 + 8

-- `SlabIndex.Next`
unfoldable pub next : Bytes8 → Bytes8
next index = put_uint64 (add64 (be_uint64 index) 1)

unfoldable pub new_slab_id : Bytes8 → Bytes8 → SlabId
new_slab_id address index = record { address = address; index = index }

-- the array copies of NewSlabIDFromRawBytes, which read sixteen bytes
copy_arrays : List ℕ → Result SlabId
copy_arrays b = elim (of_list b) [
  | none ↦ panic
  | some (address, rest) ↦ elim (of_list rest) [
    | none ↦ panic
    | some (index, rest') ↦ ok (record { address = address; index = index })
  ]
]

unfoldable pub new_slab_id_from_raw_bytes : List ℕ → Result SlabId
unfolding copy_arrays
new_slab_id_from_raw_bytes b =
    if ltb (length b) slab_id_length then err new_slab_id_error else copy_arrays b

-- The buffer after the call, with the number of bytes written.
unfoldable pub to_raw_bytes : SlabId → List ℕ → Result (List ℕ × ℕ)
to_raw_bytes id b =
    if ltb (length b) slab_id_length
    then err new_slab_id_error
    else ok (to_list id.address ++ (to_list id.index ++ drop slab_id_length b), slab_id_length)

unfoldable pub address_as_uint64 : SlabId → ℕ
address_as_uint64 id = be_uint64 id.address

unfoldable pub index_as_uint64 : SlabId → ℕ
index_as_uint64 id = be_uint64 id.index

unfoldable pub has_temp_address : SlabId → Bool
has_temp_address id = Bytes8_eq id.address undefined

unfoldable pub valid : SlabId → Result (Unit {0})
valid id =
    if SlabId_eq id slab_id_undefined
    then err new_slab_id_error
    else if Bytes8_eq id.index undefined
    then err new_slab_id_error
    else ok tt

-- `SlabID.Compare`, with -1, 0 and 1 as an `Ordering`
unfoldable pub compare : SlabId → SlabId → Ordering
compare id other =
    then_compare (compare_bytes (to_list id.address) (to_list other.address))
      (compare_bytes (to_list id.index) (to_list other.index))

-- `ValueID`, a `[16]byte`: its first and its last eight bytes.
pub record ValueId : Type 0 where
  pub high : Bytes8
  pub low : Bytes8

unfoldable pub equal : ValueId → SlabId → Bool
equal vid sid = Bytes8_eq vid.high sid.address && Bytes8_eq vid.low sid.index

unfoldable pub slab_id_to_value_id : SlabId → ValueId
slab_id_to_value_id sid = record { high = sid.address; low = sid.index }
