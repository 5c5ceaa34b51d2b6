-- ===== src/Flag/Laws.antt =====
-- What the setters and constructors of a head do to what the getters return (flag.go).
use atree.Prelude.{ℕ, ◌<◌, ◌≡◌, Bool, true, false, not, arith, if◌then◌else◌, ◌==◌}
use atree.Errors.{ok}
use atree.Flag.{
  SlabType, SlabArrayType, SlabMapType, Head, new_array_slab_head, new_map_slab_head,
  new_storable_slab_head, version, is_root, set_root, has_pointers, set_has_pointers,
  has_size_limit, set_no_size_limit, has_inlined_slabs, set_has_inlined_slabs, has_next_slab_id,
  set_has_next_slab_id, get_slab_type, get_slab_array_type, get_slab_map_type,
}
use atree.Flag.Bits.{root_bit, pointers_bit, any_size_bit, next_bit, inlined_bit, version_bits}

-- All that the getters return.
pub record HeadView : Type 0 where
  pub version : ℕ
  pub is_root : Bool
  pub has_pointers : Bool
  pub has_size_limit : Bool
  pub has_inlined_slabs : Bool
  pub has_next_slab_id : Bool
  pub slab_type : SlabType
  pub array_type : SlabArrayType
  pub map_type : SlabMapType

unfoldable pub head_view : Head → HeadView
unfolding version is_root has_pointers has_size_limit has_inlined_slabs has_next_slab_id
    get_slab_type get_slab_array_type get_slab_map_type
head_view h = record {
  version = version h;
  is_root = is_root h;
  has_pointers = has_pointers h;
  has_size_limit = has_size_limit h;
  has_inlined_slabs = has_inlined_slabs h;
  has_next_slab_id = has_next_slab_id h;
  slab_type = get_slab_type h;
  array_type = get_slab_array_type h;
  map_type = get_slab_map_type h;
}

module _ (h : Head) (low : h.h0 < 256) (high : h.h1 < 256) where
  -- Version 0 has no flag for the next slab ID: there a root has none.
  pub set_root_lem : head_view (set_root h) ≡ record (head_view h) {
    is_root = true;
    has_next_slab_id = if version h == 0 then false else (head_view h).has_next_slab_id;
  }
  unfolding head_view set_root
  set_root_lem = ground (arith, root_bit h.h1 high)

  pub set_has_pointers_lem :
      head_view (set_has_pointers h) ≡ record (head_view h) { has_pointers = true }
  unfolding head_view set_has_pointers
  set_has_pointers_lem = ground (arith, pointers_bit h.h1 high)

  pub set_no_size_limit_lem :
      head_view (set_no_size_limit h) ≡ record (head_view h) { has_size_limit = false }
  unfolding head_view set_no_size_limit
  set_no_size_limit_lem = ground (arith, any_size_bit h.h1 high)

  pub set_has_inlined_slabs_lem :
      head_view (set_has_inlined_slabs h) ≡ record (head_view h) { has_inlined_slabs = true }
  unfolding head_view set_has_inlined_slabs
  set_has_inlined_slabs_lem = ground (arith, inlined_bit h.h0 low)

  pub set_has_next_slab_id_lem :
      head_view (set_has_next_slab_id h)
      ≡ record (head_view h) { has_next_slab_id = if version h == 0 then not (is_root h) else true }
  unfolding head_view set_has_next_slab_id
  set_has_next_slab_id_lem = ground (arith, next_bit h.h0 low)

  -- On a head of two bytes each setter sets its own flag, and leaves what the other getters
  -- return. In version 0 no flag tells whether there is a next slab ID: there a root has none, and
  -- any other slab has one.
  pub setters_lem :
      (head_view (set_root h) ≡ record (head_view h) {
        is_root = true;
        has_next_slab_id = if version h == 0 then false else (head_view h).has_next_slab_id;
      })
      × (head_view (set_has_pointers h) ≡ record (head_view h) { has_pointers = true })
      × (head_view (set_no_size_limit h) ≡ record (head_view h) { has_size_limit = false })
      × (head_view (set_has_inlined_slabs h) ≡ record (head_view h) { has_inlined_slabs = true })
      × (head_view (set_has_next_slab_id h) ≡ record (head_view h) {
        has_next_slab_id = if version h == 0 then not (is_root h) else true;
      })
  setters_lem = (
    set_root_lem, set_has_pointers_lem, set_no_size_limit_lem, set_has_inlined_slabs_lem,
    set_has_next_slab_id_lem,
  )

-- A head of the given version and types with no flag set.
abbrev pub plain_view : ℕ → SlabType → SlabArrayType → SlabMapType → HeadView
plain_view v t a m = record {
  version = v;
  is_root = false;
  has_pointers = false;
  has_size_limit = true;
  has_inlined_slabs = false;
  has_next_slab_id = v == 0;
  slab_type = t;
  array_type = a;
  map_type = m;
}

-- A head that newArraySlabHead returns reads back as its version and type with no flag set.
pub new_array_head :
    (v : ℕ) (h : Head) (a : SlabArrayType)
    → new_array_slab_head v a ≡ ok h
    → head_view h ≡ plain_view v SlabType.array a SlabMapType.undefined
unfolding new_array_slab_head head_view
new_array_head v h a e = ground (arith, version_bits v)

-- A head that newMapSlabHead returns reads back as its version and type with no flag set.
pub new_map_head :
    (v : ℕ) (h : Head) (m : SlabMapType)
    → new_map_slab_head v m ≡ ok h
    → head_view h ≡ plain_view v SlabType.map SlabArrayType.undefined m
unfolding new_map_slab_head head_view
new_map_head v h m e = ground (arith, version_bits v)

-- A head that newStorableSlabHead returns reads back as its version, as a storable slab, with no
-- flag set.
pub new_storable_head :
    (v : ℕ) (h : Head)
    → new_storable_slab_head v ≡ ok h
    → head_view h ≡ plain_view v SlabType.storable SlabArrayType.undefined SlabMapType.undefined
unfolding new_storable_slab_head head_view
new_storable_head v h e = ground (arith, version_bits v)
