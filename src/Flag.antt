-- ===== src/Flag.antt =====
-- flag.go and the readers of slab.go: the two head bytes of an encoded slab.
pub mod Bits
pub mod Laws
use Prim.Native.Nat.{bit_and, bit_or}
use atree.Prelude.{
  ℕ, zero, suc, ◌*◌, ◌/◌, ◌%◌, ◌≡◌, Bool, true, false, not, List, [], ◌∷◌, ltb, ◌==◌, length,
  if◌then◌else◌,
}
use atree.Errors.{Error, Result, ok, err, panic, uncategorized, fatal, decoding, ◌>>=◌}

-- `slabType`
pub data SlabType : Type 0 where
  undefined array map storable : SlabType

-- `slabArrayType`
pub data SlabArrayType : Type 0 where
  undefined data_slab meta_slab large_immutable_array : SlabArrayType

-- `slabMapType`
pub data SlabMapType : Type 0 where
  undefined data_slab meta_slab large_entry collision_group : SlabMapType

abbrev pub mask_version : ℕ
mask_version = 0b1111_0000

abbrev pub mask_has_next_slab_id : ℕ
mask_has_next_slab_id = 0b0000_0010

abbrev pub mask_has_inlined_slabs : ℕ
mask_has_inlined_slabs = 0b0000_0001

abbrev pub mask_slab_root : ℕ
mask_slab_root = 0b1000_0000

abbrev pub mask_slab_has_pointers : ℕ
mask_slab_has_pointers = 0b0100_0000

abbrev pub mask_slab_any_size : ℕ
mask_slab_any_size = 0b0010_0000

abbrev pub mask_array_data : ℕ
mask_array_data = 0b0000_0000

abbrev pub mask_array_meta : ℕ
mask_array_meta = 0b0000_0001

abbrev pub mask_map_data : ℕ
mask_map_data = 0b0000_1000

abbrev pub mask_map_meta : ℕ
mask_map_meta = 0b0000_1001

abbrev pub mask_collision_group : ℕ
mask_collision_group = 0b0000_1011

abbrev pub mask_storable : ℕ
mask_storable = 0b0001_1111

abbrev pub max_version : ℕ
max_version = 0b0000_1111

-- `head`, a `[2]byte`
pub record Head : Type 0 where
  pub h0 : ℕ
  pub h1 : ℕ

-- an `fmt.Errorf`, which has no category
abbrev head_error : Error
head_error = uncategorized 0

-- The byte `version << 4` and a second byte.
abbrev head_of : ℕ → ℕ → Head
head_of version flags = record { h0 = version * 16 % 256; h1 = flags }

unfoldable pub new_array_slab_head : ℕ → SlabArrayType → Result Head
new_array_slab_head version t = if ltb max_version version then err head_error else elim t [
  | data_slab ↦ ok (head_of version mask_array_data)
  | meta_slab ↦ ok (head_of version mask_array_meta)
  | _ ↦ err head_error
]

unfoldable pub new_map_slab_head : ℕ → SlabMapType → Result Head
new_map_slab_head version t = if ltb max_version version then err head_error else elim t [
  | data_slab ↦ ok (head_of version mask_map_data)
  | meta_slab ↦ ok (head_of version mask_map_meta)
  | collision_group ↦ ok (head_of version mask_collision_group)
  | _ ↦ err head_error
]

unfoldable pub new_storable_slab_head : ℕ → Result Head
new_storable_slab_head version =
    if ltb max_version version then err head_error else ok (head_of version mask_storable)

unfoldable pub new_head_from_data : List ℕ → Result Head
new_head_from_data (a ∷ b ∷ []) = ok (record { h0 = a; h1 = b })
new_head_from_data _ = err head_error

-- A test of a flag: `h & mask > 0`.
abbrev has_bit : ℕ → ℕ → Bool
has_bit h mask = ltb 0 (bit_and h mask)

unfoldable pub version : Head → ℕ
version h = bit_and h.h0 mask_version / 16

unfoldable pub is_root : Head → Bool
is_root h = has_bit h.h1 mask_slab_root

unfoldable pub set_root : Head → Head
set_root h = record h { h1 = bit_or h.h1 mask_slab_root }

unfoldable pub has_pointers : Head → Bool
has_pointers h = has_bit h.h1 mask_slab_has_pointers

unfoldable pub set_has_pointers : Head → Head
set_has_pointers h = record h { h1 = bit_or h.h1 mask_slab_has_pointers }

unfoldable pub has_size_limit : Head → Bool
has_size_limit h = bit_and h.h1 mask_slab_any_size == 0

unfoldable pub set_no_size_limit : Head → Head
set_no_size_limit h = record h { h1 = bit_or h.h1 mask_slab_any_size }

unfoldable pub has_inlined_slabs : Head → Bool
has_inlined_slabs h = has_bit h.h0 mask_has_inlined_slabs

unfoldable pub set_has_inlined_slabs : Head → Head
set_has_inlined_slabs h = record h { h0 = bit_or h.h0 mask_has_inlined_slabs }

unfoldable pub has_next_slab_id : Head → Bool
unfolding version is_root
has_next_slab_id h = if version h == 0 then not (is_root h) else has_bit h.h0 mask_has_next_slab_id

unfoldable pub set_has_next_slab_id : Head → Head
set_has_next_slab_id h = record h { h0 = bit_or h.h0 mask_has_next_slab_id }

unfoldable pub get_slab_type : Head → SlabType
get_slab_type h =
    let data_type = bit_and h.h1 0b000_11000 / 8 in
    if data_type == 0
    then array
    else if data_type == 1
    then map
    else if data_type == 3
    then storable
    else SlabType.undefined

unfoldable pub get_slab_array_type : Head → SlabArrayType
unfolding get_slab_type
get_slab_array_type h =
    let data_type = bit_and h.h1 0b000_00111 in
    elim (get_slab_type h) [
      | array ↦
          if data_type == 0
          then SlabArrayType.data_slab
          else if data_type == 1
          then SlabArrayType.meta_slab
          else if data_type == 2
          then large_immutable_array
          else SlabArrayType.undefined
      | _ ↦ SlabArrayType.undefined
    ]

unfoldable pub get_slab_map_type : Head → SlabMapType
unfolding get_slab_type
get_slab_map_type h =
    let data_type = bit_and h.h1 0b000_00111 in
    elim (get_slab_type h) [
      | map ↦
          if data_type == 0
          then SlabMapType.data_slab
          else if data_type == 1
          then SlabMapType.meta_slab
          else if data_type == 2
          then large_entry
          else if data_type == 3
          then collision_group
          else SlabMapType.undefined
      | _ ↦ SlabMapType.undefined
    ]

-- slab.go: the first two bytes of encoded data, read by `test`. Fewer bytes are a decoding error.
read_head : (Head → Bool) → List ℕ → Result Bool
read_head test (a ∷ b ∷ rest) = ok (test (record { h0 = a; h1 = b }))
read_head test _ = err (fatal decoding)

unfoldable pub is_root_of_an_object : List ℕ → Result Bool
unfolding read_head is_root
is_root_of_an_object = read_head is_root

unfoldable pub data_has_pointers : List ℕ → Result Bool
unfolding read_head has_pointers
data_has_pointers = read_head has_pointers

unfoldable pub data_has_size_limit : List ℕ → Result Bool
unfolding read_head has_size_limit
data_has_size_limit = read_head has_size_limit
