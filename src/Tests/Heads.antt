-- ===== src/Tests/Heads.antt =====
-- Heads and identifiers with given bytes.
use atree.Prelude.{
  ◌*◌, ◌<◌, ◌+◌, ◌≤◌, ℕ, ◌≡◌, refl, List, [], ◌∷◌, length, drop, arith, if◌then◌else◌, ◌==◌, true,
  false, not,
}
use atree.Errors.{ok, err, new_slab_id_error}
use atree.Bytes.{IsByte8, then_compare}
use Prim.Native.Nat.{compare as nat_compare}
use atree.Flag.{
  Head, SlabType, SlabArrayType, SlabMapType, new_array_slab_head, new_map_slab_head,
  new_storable_slab_head, set_root, set_has_pointers, set_no_size_limit, set_has_inlined_slabs,
  set_has_next_slab_id, version, is_root,
}
use atree.Flag.Laws.{
  head_view, plain_view, setters_lem, new_array_head, new_map_head, new_storable_head,
}
use atree.SlabId.{
  to_raw_bytes, new_slab_id_from_raw_bytes, slab_id_length, compare, address_as_uint64,
  index_as_uint64,
}
use atree.SlabId.Laws.{from_raw-to_raw, raw_bytes-short, compare-numbers}
use atree.Settings.{
  set_threshold, set_threshold_lem, max_inline_map_value_size, array_data_slab_prefix_size,
  map_data_slab_prefix_size, hkey_elements_prefix_size, digest_size, single_element_prefix_size,
}
use atree.Tests.Objects.{id_of, small_settings}

abbrev version_1 : Head
version_1 = record { h0 = 0b0001_0000; h1 = 0b0100_1001 }

setters_lem_example :
    (head_view (set_root version_1) ≡ record (head_view version_1) {
      is_root = true;
      has_next_slab_id =
          if version version_1 == 0 then false else (head_view version_1).has_next_slab_id;
    })
    × (head_view (set_has_pointers version_1)
        ≡ record (head_view version_1) { has_pointers = true })
    × (head_view (set_no_size_limit version_1)
        ≡ record (head_view version_1) { has_size_limit = false })
    × (head_view (set_has_inlined_slabs version_1)
        ≡ record (head_view version_1) { has_inlined_slabs = true })
    × (head_view (set_has_next_slab_id version_1) ≡ record (head_view version_1) {
      has_next_slab_id = if version version_1 == 0 then not (is_root version_1) else true;
    })
setters_lem_example = setters_lem version_1 (omega arith) (omega arith)

new_array_example : new_array_slab_head 1 SlabArrayType.meta_slab ≡ ok (record { h0 = 16; h1 = 1 })
unfolding new_array_slab_head
new_array_example = refl

new_array_head_run :
    head_view (record { h0 = 16; h1 = 1 })
    ≡ plain_view 1 SlabType.array SlabArrayType.meta_slab SlabMapType.undefined
new_array_head_run =
    new_array_head 1 (record { h0 = 16; h1 = 1 }) SlabArrayType.meta_slab new_array_example

new_map_example : new_map_slab_head 1 SlabMapType.collision_group ≡ ok (record { h0 = 16; h1 = 11 })
unfolding new_map_slab_head
new_map_example = refl

new_map_head_run :
    head_view (record { h0 = 16; h1 = 11 })
    ≡ plain_view 1 SlabType.map SlabArrayType.undefined SlabMapType.collision_group
new_map_head_run =
    new_map_head 1 (record { h0 = 16; h1 = 11 }) SlabMapType.collision_group new_map_example

new_storable_example : new_storable_slab_head 1 ≡ ok (record { h0 = 16; h1 = 31 })
unfolding new_storable_slab_head
new_storable_example = refl

new_storable_head_example :
    head_view (record { h0 = 16; h1 = 31 })
    ≡ plain_view 1 SlabType.storable SlabArrayType.undefined SlabMapType.undefined
new_storable_head_example = new_storable_head 1 (record { h0 = 16; h1 = 31 }) new_storable_example

abbrev buffer : List ℕ
buffer = 1 ∷ 2 ∷ 3 ∷ 4 ∷ 5 ∷ 6 ∷ 7 ∷ 8 ∷ 9 ∷ 10 ∷ 11 ∷ 12 ∷ 13 ∷ 14 ∷ 15 ∷ 16 ∷ 17 ∷ []

from_raw-to_raw_example :
    (buf : List ℕ) × (to_raw_bytes (id_of 1 2) buffer ≡ ok (buf, slab_id_length))
    × (length buf ≡ length buffer)
    × (drop slab_id_length buf ≡ drop slab_id_length buffer)
    × (new_slab_id_from_raw_bytes buf ≡ ok (id_of 1 2))
from_raw-to_raw_example = from_raw-to_raw (id_of 1 2) buffer (omega arith)

raw_bytes_too_short :
    (to_raw_bytes (id_of 1 2) (1 ∷ 2 ∷ []) ≡ err new_slab_id_error)
    × (new_slab_id_from_raw_bytes (1 ∷ 2 ∷ []) ≡ err new_slab_id_error)
raw_bytes_too_short = raw_bytes-short (id_of 1 2) (1 ∷ 2 ∷ []) (omega arith)

bytes_1 : IsByte8 (id_of 1 2).address
bytes_1 = omega arith

bytes_2 : IsByte8 (id_of 1 2).index
bytes_2 = omega arith

compare-numbers_run :
    compare (id_of 1 2) (id_of 1 2)
    ≡ then_compare
        (nat_compare (address_as_uint64 (id_of 1 2)) (address_as_uint64 (id_of 1 2)))
        (nat_compare (index_as_uint64 (id_of 1 2)) (index_as_uint64 (id_of 1 2)))
compare-numbers_run = compare-numbers (id_of 1 2) (id_of 1 2) bytes_1 bytes_2 bytes_1 bytes_2

small_settings_run : set_threshold 256 ≡ ok small_settings
unfolding set_threshold
small_settings_run = refl

set_threshold_lem_example :
    (array_data_slab_prefix_size + 2 * 117 ≤ 256)
    × (map_data_slab_prefix_size + hkey_elements_prefix_size + 2 * (digest_size + 107) ≤ 256)
    × (2 * 128 + 117 ≤ 384)
    × (2 * 128 + (digest_size + 107) ≤ 384)
    × (0 < 128)
    × (128 < 256)
    × (256 < 384)
    × (single_element_prefix_size + 50 + max_inline_map_value_size small_settings 50 ≡ 107)
    × (53 ≤ max_inline_map_value_size small_settings 50)
set_threshold_lem_example =
    set_threshold_lem 256 50 small_settings (omega arith) small_settings_run (omega arith)
