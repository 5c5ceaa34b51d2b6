-- ===== src/Settings.antt =====
-- settings.go, array_size_consts.go, map_size_consts.go: the thresholds and the encoding sizes of
-- array and map slabs.
use atree.Prelude.{
  ℕ, ◌+◌, ◌-◌, ◌*◌, ◌/◌, ◌^◌, ◌≤◌, ◌<◌, ◌≡◌, arith, ltb, if◌then◌else◌, sub64, sub64_lem,
}
use atree.Errors.{Result, ok, panic}

abbrev pub min_slab_size : ℕ
min_slab_size = 256

abbrev pub min_element_count_in_slab : ℕ
min_element_count_in_slab = 2

abbrev pub version_and_flag_size : ℕ
version_and_flag_size = 2

abbrev pub array_slab_header_size : ℕ
array_slab_header_size = 8 + 4 + 2

abbrev pub array_meta_data_slab_prefix_size : ℕ
array_meta_data_slab_prefix_size = version_and_flag_size + 8 + 2

abbrev pub array_data_slab_element_head_size : ℕ
array_data_slab_element_head_size = 3

abbrev pub array_data_slab_prefix_size : ℕ
array_data_slab_prefix_size = version_and_flag_size + (8 + 8) + array_data_slab_element_head_size

abbrev pub array_root_data_slab_prefix_size : ℕ
array_root_data_slab_prefix_size = version_and_flag_size + array_data_slab_element_head_size

abbrev pub inlined_array_data_slab_prefix_size : ℕ
inlined_array_data_slab_prefix_size = 2 + 1 + 2 + 1 + 8 + array_data_slab_element_head_size

abbrev pub digest_size : ℕ
digest_size = 8

abbrev pub single_element_prefix_size : ℕ
single_element_prefix_size = 1

abbrev pub hkey_elements_prefix_size : ℕ
hkey_elements_prefix_size = 1 + 1 + 3 + 3

abbrev pub map_data_slab_prefix_size : ℕ
map_data_slab_prefix_size = version_and_flag_size + (8 + 8)

-- map_size_consts.go
abbrev pub single_elements_prefix_size : ℕ
single_elements_prefix_size = 1 + 1 + 1 + 3

abbrev pub inline_collision_group_prefix_size : ℕ
inline_collision_group_prefix_size = 2

abbrev pub external_collision_group_prefix_size : ℕ
external_collision_group_prefix_size = 2

abbrev pub map_root_data_slab_prefix_size : ℕ
map_root_data_slab_prefix_size = version_and_flag_size

abbrev pub inlined_map_data_slab_prefix_size : ℕ
inlined_map_data_slab_prefix_size = 2 + 1 + 2 + 1 + 8

-- The package's variables.
pub record Settings : Type 0 where
  pub target_threshold : ℕ
  pub min_threshold : ℕ
  pub max_threshold : ℕ
  pub max_inline_array_element_size : ℕ
  pub max_inline_map_element_size : ℕ
  pub max_inline_map_key_size : ℕ

-- `SetThreshold`. The product with 1.5 is exact in a float64 below 2 ^ 52; no subtraction here
-- wraps around, since the threshold is at least 256.
unfoldable pub set_threshold : ℕ → Result Settings
set_threshold threshold =
    let map_element =
      (threshold - map_data_slab_prefix_size - hkey_elements_prefix_size)
        / min_element_count_in_slab
      - digest_size in
    if ltb threshold min_slab_size
    then panic
    else ok (record {
      target_threshold = threshold;
      min_threshold = threshold / 2;
      max_threshold = threshold * 3 / 2;
      max_inline_array_element_size =
          (threshold - array_data_slab_prefix_size) / min_element_count_in_slab;
      max_inline_map_element_size = map_element;
      max_inline_map_key_size = (map_element - single_element_prefix_size) / 2;
    })

unfoldable pub max_inline_map_value_size : Settings → ℕ → ℕ
max_inline_map_value_size c key_size =
    sub64 (sub64 c.max_inline_map_element_size key_size) single_element_prefix_size

-- What the slabs rely on: thresholds that SetThreshold computes, of a size that a uint32 holds
-- with room to spare.
pub record IsSettings (c : Settings) : Type 0 where
  pub least : min_slab_size ≤ c.target_threshold
  pub most : c.target_threshold < 2 ^ 28
  pub lower : c.min_threshold ≡ c.target_threshold / 2
  pub upper : c.max_threshold ≡ c.target_threshold * 3 / 2
  pub inline_limit :
      c.max_inline_array_element_size
      ≡ (c.target_threshold - array_data_slab_prefix_size) / min_element_count_in_slab

pub set_threshold-IsSettings :
    (threshold : ℕ) (c : Settings)
    → threshold < 2 ^ 28
    → set_threshold threshold ≡ ok c
    → IsSettings c
unfolding set_threshold
set_threshold-IsSettings threshold c h e = ground arith

set_threshold-fields :
    (threshold : ℕ) (c : Settings)
    → set_threshold threshold ≡ ok c
    → (256 ≤ threshold)
      × (c.target_threshold ≡ threshold)
      × (c.min_threshold ≡ threshold / 2)
      × (c.max_threshold ≡ threshold * 3 / 2)
      × (c.max_inline_array_element_size ≡ (threshold - 21) / 2)
      × (c.max_inline_map_element_size ≡ (threshold - 26) / 2 - 8)
      × (c.max_inline_map_key_size ≡ ((threshold - 26) / 2 - 9) / 2)
unfolding set_threshold
set_threshold-fields threshold c e = ground arith

-- SetThreshold leaves the room that the slabs need. For a threshold below 2 ^ 52 that it accepts,
-- and a key of legal size: two array elements of legal size, and two map elements with their
-- digests, fit into a data slab of the target size with its prefix; a data slab of more than the
-- maximum size holds so much that what remains without one element, of an array or of a map, is two
-- minimum sizes; the minimum is positive and the target lies between it and the maximum; and the
-- key, the value size that is left for it and the prefix are exactly one map element of legal size,
-- where that value size is at least the largest legal key size.
pub set_threshold_lem :
    (threshold key_size : ℕ) (c : Settings)
    → threshold < 2 ^ 52
    → set_threshold threshold ≡ ok c
    → key_size ≤ c.max_inline_map_key_size
    → (array_data_slab_prefix_size + 2 * c.max_inline_array_element_size ≤ c.target_threshold)
      × (map_data_slab_prefix_size
            + hkey_elements_prefix_size
            + 2 * (digest_size + c.max_inline_map_element_size)
          ≤ c.target_threshold)
      × (2 * c.min_threshold + c.max_inline_array_element_size ≤ c.max_threshold)
      × (2 * c.min_threshold + (digest_size + c.max_inline_map_element_size) ≤ c.max_threshold)
      × (0 < c.min_threshold)
      × (c.min_threshold < c.target_threshold)
      × (c.target_threshold < c.max_threshold)
      × (single_element_prefix_size + key_size + max_inline_map_value_size c key_size
          ≡ c.max_inline_map_element_size)
      × (c.max_inline_map_key_size ≤ max_inline_map_value_size c key_size)
unfolding max_inline_map_value_size
set_threshold_lem threshold key_size c h e k =
    let (least, target, low, high, array_element, map_element, map_key) =
      set_threshold-fields threshold c e in
    let legal : key_size + 1 ≤ c.max_inline_map_element_size = omega arith in
    let size : c.max_inline_map_element_size < 2 ^ 52 = omega arith in
    let less = sub64_lem c.max_inline_map_element_size key_size (omega arith) (omega arith) in
    let left = sub64_lem (c.max_inline_map_element_size - key_size) 1 (omega arith) (omega arith) in
    (
      omega arith,
      omega arith,
      omega arith,
      omega arith,
      omega arith,
      omega arith,
      omega arith,
      rw (less, left) (omega arith),
      rw (less, left) (omega arith),
    )
