-- ===== src/Array/Ops.antt =====
-- Get, Set, Insert, Remove and PopIterate of an array's slabs (ArraySlab of array_slab.go, with the
-- inner nodes' methods of array_metadata_slab.go), and getArrayDataSlabWithIndex (array_slab.go).
-- The fuel bounds the depth of the tree; a tree deeper than it is a panic of the model's own.
pub mod Under
pub mod Parts
pub mod Count
pub mod Halve
pub mod Grows
pub mod Place
pub mod Close
pub mod Pair
pub mod Settle
pub mod Insert
pub mod Descend
pub mod Inserted
pub mod Step
pub mod Exchange
pub mod Restore
pub mod Underflow
pub mod Carry
pub mod Read
use atree.Prelude.{
  ℕ, zero, suc, ◌+◌, ◌-◌, Bool, true, false, Option, none, some, List, [], ◌∷◌, ◌++◌, ltb, leb,
  ◌==◌, if◌then◌else◌, length, get_elem?, add32, sub32, reverse,
}
use atree.Bytes.{Bytes8}
use atree.Ids.{SlabId}
use atree.Errors.{Result, ok, err, panic, new_index_out_of_bounds_error}
use atree.Errors
use atree.Action.{Action, pure, raise, lift, ◌>>=◌, ◌>>◌, continue}
use atree.Storage.Interface.{SlabStorage, wrapped}
use atree.Settings.{Settings, array_meta_data_slab_prefix_size}
use atree.Array.Slab.{ArraySlabHeader, ArrayDataSlab, ArrayMetaDataSlab, Slab}
use atree.Array.Data
use atree.Array.Data.{get_prefix_size}
use atree.Array.Meta
use atree.Array.Meta.{child_slab_index_info}
use atree.Array.Tree.{
  ArraySlab, leaf, node, header_of, put, get_array_slab, store_array_slab, split_child_slab,
  merge_or_rebalance_child_slab,
}

-- The loops that add one to, and take one off, the count sums from a position on.
unfoldable pub increment_from : ℕ → List ℕ → List ℕ
increment_from i [] = []
increment_from zero (sum ∷ sums) = add32 sum 1 ∷ increment_from zero sums
increment_from (suc i) (sum ∷ sums) = sum ∷ increment_from i sums

unfoldable pub decrement_from : ℕ → List ℕ → List ℕ
decrement_from i [] = []
decrement_from zero (sum ∷ sums) = sub32 sum 1 ∷ decrement_from zero sums
decrement_from (suc i) (sum ∷ sums) = sum ∷ decrement_from i sums

module _ {X : Type 0} where
  -- The child that Insert goes to: behind the last element, the end of the last child.
  unfoldable pub insert_place : ArrayMetaDataSlab X → ℕ → Result (ℕ × ℕ × SlabId)
  insert_place a index =
      let last = length a.children_headers - 1 in
      if index == a.header.count
      then elim (get_elem? a.children_headers last) [
        | none ↦ panic
        | some h ↦ ok (last, h.count, h.slab_id)
      ]
      else child_slab_index_info a index

  -- The parent with a child's new header, after Set, Insert and Remove in the child.
  unfoldable pub with_child :
      ArrayMetaDataSlab X → ℕ → ArraySlabHeader → Result (ArrayMetaDataSlab X)
  unfolding put
  with_child a i h =
      Errors.◌>>=◌ (put a.children_headers i h) (λ hs. ok (record a { children_headers = hs }))

  unfoldable pub with_one_more :
      ArrayMetaDataSlab X → ℕ → ArraySlabHeader → Result (ArrayMetaDataSlab X)
  unfolding with_child increment_from
  with_one_more a i h =
      with_child
        (record a {
          header = record (a.header) { count = add32 a.header.count 1 };
          children_count_sum = increment_from i a.children_count_sum;
        })
        i h

  unfoldable pub with_one_less :
      ArrayMetaDataSlab X → ℕ → ArraySlabHeader → Result (ArrayMetaDataSlab X)
  unfolding with_child decrement_from
  with_one_less a i h =
      with_child
        (record a {
          header = record (a.header) { count = sub32 a.header.count 1 };
          children_count_sum = decrement_from i a.children_count_sum;
        })
        i h

module _ {E X : Type 0} (c : Settings) where
  unfoldable pub slab_is_full : ArraySlab E X → Bool
  slab_is_full (leaf a) = Data.is_full c a
  slab_is_full (node a) = Meta.is_full c a

  unfoldable pub slab_is_underflow : ArraySlab E X → Option ℕ
  slab_is_underflow (leaf a) = Data.is_underflow c a
  slab_is_underflow (node a) = Meta.is_underflow c a

module _ {E X O S V : Type 0} (byte_size : E → ℕ) (c : Settings)
    (storage : SlabStorage S (Slab E X O)) (storable : Bytes8 → ℕ → V → Action S E) where
  unfoldable pub get : ℕ → ArraySlab E X → ℕ → Action S E
  get zero slab index = lift panic
  get (suc fuel) (leaf a) index = lift (Data.get a index)
  get (suc fuel) (node a) index = do
    place ← lift (child_slab_index_info a index)
    child ← get_array_slab byte_size c storage (place.2)
    get fuel child (place.1)

  unfoldable pub get_array_data_slab_with_index :
      ℕ → ArraySlab E X → ℕ → Action S (ArrayDataSlab E X × ℕ)
  get_array_data_slab_with_index zero slab index = lift panic
  get_array_data_slab_with_index (suc fuel) (leaf a) index =
      if leb (length a.elements) index
      then raise (new_index_out_of_bounds_error index 0 (length a.elements))
      else pure (a, index)
  get_array_data_slab_with_index (suc fuel) (node a) index = do
    place ← lift (child_slab_index_info a index)
    child ← get_array_slab byte_size c storage (place.2)
    get_array_data_slab_with_index fuel child (place.1)

  -- The end of Insert in an inner node: a full child is split.
  unfoldable pub settle_full :
      ArrayMetaDataSlab X → ArraySlab E X → ℕ → Action S (ArrayMetaDataSlab X)
  settle_full a child i = elim (slab_is_full c child) [
    | true ↦ split_child_slab byte_size c storage a child i
    | false ↦ store_array_slab byte_size c storage (node a) >> pure a
  ]

  -- The end of Set in an inner node.
  unfoldable pub settle_child :
      ArrayMetaDataSlab X → ArraySlab E X → ℕ → Action S (ArrayMetaDataSlab X)
  settle_child a child i = elim (slab_is_full c child) [
    | true ↦ split_child_slab byte_size c storage a child i
    | false ↦ elim (slab_is_underflow c child) [
      | some size ↦ merge_or_rebalance_child_slab byte_size c storage a child i size
      | none ↦ store_array_slab byte_size c storage (node a) >> pure a
    ]
  ]

  -- The end of Remove in an inner node, which stores the parent in each case.
  unfoldable pub settle_underflow :
      ArrayMetaDataSlab X → ArraySlab E X → ℕ → Action S (ArrayMetaDataSlab X)
  settle_underflow a child i = do
    m ← elim (slab_is_underflow c child) [
      | some size ↦ merge_or_rebalance_child_slab byte_size c storage a child i size
      | none ↦ pure a
    ]
    store_array_slab byte_size c storage (node m)
    pure m

  -- The changed slab comes back, with the old element.
  unfoldable pub set_in_slab : ℕ → ArraySlab E X → Bytes8 → ℕ → V → Action S (ArraySlab E X × E)
  unfolding settle_child with_child
  set_in_slab zero slab address index value = lift panic
  set_in_slab (suc fuel) (leaf a) address index value = do
    r ← Data.set_element byte_size c storage storable a address index value
    pure (leaf r.0, r.1)
  set_in_slab (suc fuel) (node a) address index value = do
    place ← lift (child_slab_index_info a index)
    child ← get_array_slab byte_size c storage (place.2)
    r ← set_in_slab fuel child address (place.1) value
    a' ← lift (with_child a (place.0) (header_of r.0))
    m ← settle_child a' r.0 (place.0)
    pure (node m, r.1)

  unfoldable pub insert_in_slab : ℕ → ArraySlab E X → Bytes8 → ℕ → V → Action S (ArraySlab E X)
  unfolding settle_full with_one_more insert_place
  insert_in_slab zero slab address index value = lift panic
  insert_in_slab (suc fuel) (leaf a) address index value = do
    m ← Data.insert byte_size c storage storable a address index value
    pure (leaf m)
  insert_in_slab (suc fuel) (node a) address index value =
      if ltb a.header.count index
      then raise (new_index_out_of_bounds_error index 0 a.header.count)
      else do
        place ← lift (insert_place a index)
        child ← get_array_slab byte_size c storage (place.2)
        child' ← insert_in_slab fuel child address (place.1) value
        a' ← lift (with_one_more a (place.0) (header_of child'))
        m ← settle_full a' child' (place.0)
        pure (node m)

  unfoldable pub remove_in_slab : ℕ → ArraySlab E X → ℕ → Action S (ArraySlab E X × E)
  unfolding settle_underflow with_one_less
  remove_in_slab zero slab index = lift panic
  remove_in_slab (suc fuel) (leaf a) index = do
    r ← Data.remove byte_size c storage storable a index
    pure (leaf r.0, r.1)
  remove_in_slab (suc fuel) (node a) index =
      if leb a.header.count index
      then raise (new_index_out_of_bounds_error index 0 a.header.count)
      else do
        place ← lift (child_slab_index_info a index)
        child ← get_array_slab byte_size c storage (place.2)
        r ← remove_in_slab fuel child (place.1)
        a' ← lift (with_one_less a (place.0) (header_of r.0))
        m ← settle_underflow a' r.0 (place.0)
        pure (node m, r.1)

  -- The loop of an inner node's PopIterate, over the child headers from the last to the first, given
  -- PopIterate of a child. The elements come back in the order in which the callback gets them.
  unfoldable pub pop_children :
      (ArraySlab E X → Action S (ArraySlab E X × List E)) → List ArraySlabHeader → Action S (List E)
  pop_children pop [] = pure []
  pop_children pop (h ∷ hs) = do
    child ← get_array_slab byte_size c storage h.slab_id
    r ← pop child
    wrapped (storage.remove h.slab_id)
    rest ← pop_children pop hs
    pure (r.1 ++ rest)

  unfoldable pub pop_iterate_slab : ℕ → ArraySlab E X → Action S (ArraySlab E X × List E)
  unfolding pop_children get_prefix_size
  pop_iterate_slab zero slab = lift panic
  pop_iterate_slab (suc fuel) (leaf a) = pure (
    leaf (record a {
      elements = [];
      header = record (a.header) { count = 0; size = get_prefix_size a };
    }),
    reverse a.elements,
  )
  pop_iterate_slab (suc fuel) (node a) = do
    popped ← pop_children (pop_iterate_slab fuel) (reverse a.children_headers)
    pure (
      node (record a {
        header = record (a.header) { count = 0; size = array_meta_data_slab_prefix_size };
        children_headers = [];
        children_count_sum = [];
      }),
      popped,
    )
