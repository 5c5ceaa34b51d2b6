-- ===== src/Array/Data.antt =====
-- ArrayDataSlab of array_data_slab.go: the leaf of an array.
pub mod Shape
pub mod Thresholds
pub mod Update
pub mod Rebalance
use atree.Prelude.{
  ℕ, ◌+◌, ◌-◌, ◌*◌, ◌/◌, ◌%◌, ◌≡◌, Bool, true, false, not, Option, none, some, List, [], ◌∷◌, ◌++◌,
  ltb, leb, ◌==◌, if◌then◌else◌, length, get_elem?, set, take, drop, insert_at, remove_at, add32,
  sub32, u32_mod,
}
use atree.Bytes.{Bytes8}
use atree.Ids.{SlabId}
use atree.Errors.{Result, ok, err, panic, new_index_out_of_bounds_error, fatal, other, Error}
use atree.Action.{Action, pure, raise, lift, ◌>>=◌, ◌>>◌}
use atree.Storage.Interface.{SlabStorage, wrapped}
use atree.Settings.{
  Settings, array_data_slab_prefix_size, array_root_data_slab_prefix_size,
  inlined_array_data_slab_prefix_size,
}
use atree.Array.Slab.{ArraySlabHeader, ArrayDataSlab, Slab, data_slab}

module _ {E X : Type 0} where
  unfoldable pub get_prefix_size : ArrayDataSlab E X → ℕ
  get_prefix_size a = if a.inlined then inlined_array_data_slab_prefix_size else elim a.extra_data [
    | some _ ↦ array_root_data_slab_prefix_size
    | none ↦ array_data_slab_prefix_size
  ]

  unfoldable pub get : ArrayDataSlab E X → ℕ → Result E
  get a index = elim (get_elem? a.elements index) [
    | some e ↦ ok e
    | none ↦ err (new_index_out_of_bounds_error index 0 (length a.elements))
  ]

  unfoldable pub is_full : Settings → ArrayDataSlab E X → Bool
  is_full c a = ltb (c.max_threshold % u32_mod) a.header.size

  -- The bytes that are missing to the minimum, if any are.
  unfoldable pub is_underflow : Settings → ArrayDataSlab E X → Option ℕ
  is_underflow c a =
      let least = c.min_threshold % u32_mod in
      if ltb a.header.size least then some (sub32 least a.header.size) else none

  unfoldable pub inlinable : ArrayDataSlab E X → ℕ → Bool
  inlinable a max_inline_size = elim a.extra_data [
    | none ↦ false
    | some _ ↦
        leb
          (if a.inlined
            then a.header.size
            else add32 (sub32 a.header.size array_root_data_slab_prefix_size)
                inlined_array_data_slab_prefix_size)
          max_inline_size
  ]

module _ {E : Type 0} (byte_size : E → ℕ) where
  unfoldable pub total_size : ℕ → List E → ℕ
  total_size size [] = size
  total_size size (e ∷ es) = total_size (add32 size (byte_size e)) es

module _ {E X : Type 0} (byte_size : E → ℕ) where
  -- The size is computed anew from all elements.
  unfoldable pub with_element : ArrayDataSlab E X → ℕ → E → ArrayDataSlab E X
  unfolding get_prefix_size total_size
  with_element a index e =
      let elements = set a.elements index e in
      record a {
        elements = elements;
        header = record (a.header) { size = total_size byte_size (get_prefix_size a) elements };
      }

  unfoldable pub with_inserted : ArrayDataSlab E X → ℕ → E → ArrayDataSlab E X
  with_inserted a index e = record a {
    elements = insert_at a.elements index e;
    header = record (a.header) {
      count = add32 a.header.count 1;
      size = add32 a.header.size (byte_size e);
    };
  }

  unfoldable pub without_element : ArrayDataSlab E X → ℕ → E → ArrayDataSlab E X
  without_element a index v = record a {
    elements = remove_at a.elements index;
    header = record (a.header) {
      count = sub32 a.header.count 1;
      size = sub32 a.header.size (byte_size v);
    };
  }

-- The methods, over the size of a storable and the value interface: `storable address limit v` is
-- `v.Storable(storage, address, limit)`.
module _ {E X O S V : Type 0} (byte_size : E → ℕ) (c : Settings)
    (storage : SlabStorage S (Slab E X O)) (storable : Bytes8 → ℕ → V → Action S E) where
  -- `storeSlab`
  unfoldable pub store_slab : ArrayDataSlab E X → Action S (Unit {0})
  store_slab a = wrapped (storage.store a.header.slab_id (data_slab a))

  -- An inlined slab is stored with its parent.
  unfoldable pub store_unless_inlined : ArrayDataSlab E X → Action S (Unit {0})
  unfolding store_slab
  store_unless_inlined a = if a.inlined then pure tt else store_slab a

  -- The updated slab comes back with the result.
  unfoldable pub set_element : ArrayDataSlab E X → Bytes8 → ℕ → V → Action S (ArrayDataSlab E X × E)
  unfolding with_element store_unless_inlined
  set_element a address index value = elim (get_elem? a.elements index) [
    | none ↦ raise (new_index_out_of_bounds_error index 0 (length a.elements))
    | some old ↦ do
      e ← wrapped (storable address c.max_inline_array_element_size value)
      store_unless_inlined (with_element byte_size a index e)
      pure (with_element byte_size a index e, old)
  ]

  unfoldable pub insert : ArrayDataSlab E X → Bytes8 → ℕ → V → Action S (ArrayDataSlab E X)
  unfolding with_inserted store_unless_inlined
  insert a address index value =
      if ltb (length a.elements) index
      then raise (new_index_out_of_bounds_error index 0 (length a.elements))
      else do
        e ← wrapped (storable address c.max_inline_array_element_size value)
        store_unless_inlined (with_inserted byte_size a index e)
        pure (with_inserted byte_size a index e)

  unfoldable pub remove : ArrayDataSlab E X → ℕ → Action S (ArrayDataSlab E X × E)
  unfolding without_element store_unless_inlined
  remove a index = elim (get_elem? a.elements index) [
    | none ↦ raise (new_index_out_of_bounds_error index 0 (length a.elements))
    | some v ↦ do
      store_unless_inlined (without_element byte_size a index v)
      pure (without_element byte_size a index v, v)
  ]

  abbrev not_inlinable : Error
  not_inlinable = fatal other

  -- `Inline` and `Uninline`
  unfoldable pub inline : ArrayDataSlab E X → Action S (ArrayDataSlab E X)
  inline a = if a.inlined then raise not_inlinable else do
    wrapped (storage.remove a.header.slab_id)
    pure (record a {
      header = record (a.header) {
        size =
            add32 (sub32 a.header.size array_root_data_slab_prefix_size)
              inlined_array_data_slab_prefix_size;
      };
      inlined = true;
    })

  abbrev uninlined : ArrayDataSlab E X → ArrayDataSlab E X
  uninlined a = record a {
    header = record (a.header) {
      size =
          add32 (sub32 a.header.size inlined_array_data_slab_prefix_size)
            array_root_data_slab_prefix_size;
    };
    inlined = false;
  }

  unfoldable pub uninline : ArrayDataSlab E X → Action S (ArrayDataSlab E X)
  unfolding store_slab
  uninline a =
      if a.inlined then (do store_slab (uninlined a); pure (uninlined a)) else raise not_inlinable
