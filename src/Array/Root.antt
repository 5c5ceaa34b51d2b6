-- ===== src/Array/Root.antt =====
-- Array of array.go: the root slab of an array, the callback to its parent, and the positions of its
-- mutable elements.
pub mod Demote
pub mod Grow
pub mod Index
pub mod Settle
pub mod Insert
pub mod Create
use atree.Prelude.{
  ℕ, ◌+◌, ◌*◌, Bool, true, false, ◌&&◌, Option, none, some, List, [], ◌∷◌, ltb, leb, if◌then◌else◌,
  add32, sub32, add64, sub64,
}
use atree.Bytes.{Bytes8, Bytes8_eq}
use atree.Ids.{SlabId, SlabId_eq, slab_id_undefined}
use atree.SlabId.{ValueId}
use atree.Errors.{Error, Result, ok, err, panic, fatal, other, not_value, new_slab_id_error}
use atree.Errors
use atree.Action.{Action, pure, raise, lift, ◌>>=◌, ◌>>◌}
use atree.Storage.Interface.{SlabStorage, wrapped}
use atree.Settings.{
  Settings, array_slab_header_size, array_meta_data_slab_prefix_size, array_data_slab_prefix_size,
  array_root_data_slab_prefix_size, inlined_array_data_slab_prefix_size,
}
use atree.Array.Slab.{ArraySlabHeader, ArrayMetaDataSlab, Slab}
use atree.Array.Tree.{
  ArraySlab, leaf, node, header_of, is_inlined, extra_data_of, get_array_slab, store_array_slab,
  split_slab,
}
use atree.Array.Ops.{
  slab_is_full, get, set_in_slab, insert_in_slab, remove_in_slab, pop_iterate_slab,
}

-- A `parentUpdater` returns whether the parent has found the array.
pub record Array (E X S : Type 0) : Type 0 where
  pub root : ArraySlab E X
  pub parent_updater : Option (Action S Bool)
  pub mutable_element_index : List (ValueId × ℕ)

abbrev index_error : Error
index_error = fatal other

abbrev pub ValueId_eq : ValueId → ValueId → Bool
ValueId_eq x y = Bytes8_eq x.high y.high && Bytes8_eq x.low y.low

-- `a.mutableElementIndex[vid] = i`
unfoldable pub put_index : ValueId → ℕ → List (ValueId × ℕ) → List (ValueId × ℕ)
put_index vid i [] = (vid, i) ∷ []
put_index vid i ((w, j) ∷ entries) =
    if ValueId_eq vid w then (w, i) ∷ entries else (w, j) ∷ put_index vid i entries

-- The loops of incrementIndexFrom, for an array of `count` elements, and decrementIndexFrom.
unfoldable pub increment_entries : ℕ → ℕ → List (ValueId × ℕ) → Result (List (ValueId × ℕ))
increment_entries count index [] = ok []
increment_entries count index ((id, i) ∷ entries) =
    Errors.◌>>=◌
      (if leb index i
        then (if leb count (add64 i 1) then err index_error else ok (add64 i 1))
        else ok i)
      (λ j. Errors.◌>>=◌ (increment_entries count index entries) (λ rest. ok ((id, j) ∷ rest)))

unfoldable pub decrement_entries : ℕ → List (ValueId × ℕ) → Result (List (ValueId × ℕ))
decrement_entries index [] = ok []
decrement_entries index ((id, i) ∷ entries) =
    Errors.◌>>=◌
      (if ltb index i then (if leb i 0 then err index_error else ok (sub64 i 1)) else ok i)
      (λ j. Errors.◌>>=◌ (decrement_entries index entries) (λ rest. ok ((id, j) ∷ rest)))

module _ {E X : Type 0} where
  -- `SetExtraData`, `RemoveExtraData` and `SetSlabID`.
  unfoldable pub with_extra_data : Option X → ArraySlab E X → ArraySlab E X
  with_extra_data x (leaf a) = leaf (record a { extra_data = x })
  with_extra_data x (node a) = node (record a { extra_data = x })

  unfoldable pub with_slab_id : SlabId → ArraySlab E X → ArraySlab E X
  with_slab_id id (leaf a) = leaf (record a { header = record (a.header) { slab_id = id } })
  with_slab_id id (node a) = node (record a { header = record (a.header) { slab_id = id } })

  -- The size of a leaf that stops being the root, and of one that becomes it.
  unfoldable pub demoted : ArraySlab E X → ArraySlab E X
  demoted (leaf a) = leaf (record a {
    header = record (a.header) {
      size =
          add32 (sub32 a.header.size array_root_data_slab_prefix_size) array_data_slab_prefix_size;
    };
  })
  demoted (node a) = node a

  unfoldable pub promoted : ArraySlab E X → ArraySlab E X
  promoted (leaf a) = leaf (record a {
    header = record (a.header) {
      size =
          add32 (sub32 a.header.size array_data_slab_prefix_size) array_root_data_slab_prefix_size;
    };
  })
  promoted (node a) = node a

  -- A root without elements.
  unfoldable pub empty_root : SlabId → Option X → Bool → ArraySlab E X
  empty_root id x inlined = leaf (record {
    next = slab_id_undefined;
    header = record {
      slab_id = id;
      size =
          if inlined then inlined_array_data_slab_prefix_size else array_root_data_slab_prefix_size;
      count = 0;
    };
    elements = [];
    extra_data = x;
    inlined = inlined;
  })

module _ {X : Type 0} where
  -- The root over the two halves of the old one.
  unfoldable pub root_over :
      SlabId → Option X → ArraySlabHeader → ArraySlabHeader → ArrayMetaDataSlab X
  root_over id x l r = record {
    header = record {
      slab_id = id;
      size = array_meta_data_slab_prefix_size + array_slab_header_size * 2;
      count = add32 l.count r.count;
    };
    children_headers = l ∷ r ∷ [];
    children_count_sum = l.count ∷ add32 l.count r.count ∷ [];
    extra_data = x;
  }

module _ {E X S : Type 0} where
  abbrev pub count : Array E X S → ℕ
  count a = (header_of a.root).count

  abbrev pub address : Array E X S → Bytes8
  address a = (header_of a.root).slab_id.address

  unfoldable pub slab_id : Array E X S → SlabId
  unfolding is_inlined
  slab_id a = if is_inlined a.root then slab_id_undefined else (header_of a.root).slab_id

  unfoldable pub increment_index_from : ℕ → Array E X S → Result (Array E X S)
  increment_index_from index a =
      Errors.◌>>=◌ (increment_entries (count a) index a.mutable_element_index)
        (λ entries. ok (record a { mutable_element_index = entries }))

  unfoldable pub decrement_index_from : ℕ → Array E X S → Result (Array E X S)
  decrement_index_from index a =
      Errors.◌>>=◌ (decrement_entries index a.mutable_element_index)
        (λ entries. ok (record a { mutable_element_index = entries }))

  unfoldable pub notify_parent_if_needed : Array E X S → Action S (Array E X S)
  notify_parent_if_needed a = elim (a.parent_updater) [
    | none ↦ pure a
    | some updater ↦ do
      found ← updater
      pure (if found then a else record a { parent_updater = none })
  ]

-- `value_id` gives the ValueID of a value that, unwrapped, is an array or a map, and `stored_value`
-- is the method StoredValue of a storable. What setCallbackWithChild does to the child is left out.
module _ {E X O S V : Type 0} (byte_size : E → ℕ) (c : Settings)
    (storage : SlabStorage S (Slab E X O)) (storable : Bytes8 → ℕ → V → Action S E)
    (value_id : V → Option ValueId) (stored_value : E → Action S V) where
  unfoldable pub set_callback_with_child : ℕ → V → Array E X S → Array E X S
  unfolding put_index
  set_callback_with_child i child a = elim (value_id child) [
    | none ↦ a
    | some vid ↦ record a { mutable_element_index = put_index vid i a.mutable_element_index }
  ]

  unfoldable pub new_array : Bytes8 → X → Action S (Array E X S)
  unfolding empty_root
  new_array addr x = do
    id ← wrapped (storage.generate_slab_id addr)
    store_array_slab byte_size c storage (empty_root id (some x) false)
    pure (record {
      root = empty_root id (some x) false;
      parent_updater = none;
      mutable_element_index = [];
    })

  unfoldable pub new_array_with_root_id : SlabId → Action S (Array E X S)
  unfolding extra_data_of
  new_array_with_root_id id = if SlabId_eq id slab_id_undefined then raise new_slab_id_error else do
    root ← get_array_slab byte_size c storage id
    elim (extra_data_of root) [
      | none ↦ raise (fatal (not_value id))
      | some _ ↦ pure (record { root = root; parent_updater = none; mutable_element_index = [] })
    ]

  unfoldable pub split_root : Array E X S → Action S (Array E X S)
  unfolding demoted with_extra_data with_slab_id root_over extra_data_of
  split_root a = do
    id ← wrapped (storage.generate_slab_id (address a))
    p ← split_slab byte_size c storage (with_slab_id id (with_extra_data none (demoted a.root)))
    let root = node (
        root_over (header_of a.root).slab_id (extra_data_of a.root) (header_of p.0) (header_of p.1))
    store_array_slab byte_size c storage p.0
    store_array_slab byte_size c storage p.1
    store_array_slab byte_size c storage root
    pure (record a { root = root })

  unfoldable pub promote_child_as_new_root : Array E X S → SlabId → Action S (Array E X S)
  unfolding promoted with_extra_data with_slab_id extra_data_of
  promote_child_as_new_root a child_id = do
    child ← get_array_slab byte_size c storage child_id
    let root =
        with_extra_data (extra_data_of a.root)
          (with_slab_id (header_of a.root).slab_id (promoted child))
    store_array_slab byte_size c storage root
    wrapped (storage.remove child_id)
    pure (record a { root = root })

  pub split_root_if_full : Array E X S → Action S (Array E X S)
  split_root_if_full a = elim (slab_is_full c a.root) [ true ↦ split_root a | false ↦ pure a ]

  -- A root with one child gives way to it.
  promote_only_child : ArraySlab E X → Array E X S → Action S (Array E X S)
  promote_only_child (leaf _) a = pure a
  promote_only_child (node root) a = elim (root.children_headers) [
    | h ∷ [] ↦ promote_child_as_new_root a h.slab_id
    | _ ↦ pure a
  ]

  -- `Get`, with the array whose mutable elements then hold the value.
  unfoldable pub get_value : ℕ → Array E X S → ℕ → Action S (Array E X S × V)
  get_value fuel a i = do
    e ← get byte_size c storage storable fuel a.root i
    v ← wrapped (stored_value e)
    pure (set_callback_with_child i v a, v)

  -- `set`, which `Set` calls first.
  unfoldable pub set_value : ℕ → Array E X S → ℕ → V → Action S (Array E X S × E)
  unfolding split_root_if_full promote_only_child
  set_value fuel a index value = do
    r ← set_in_slab byte_size c storage storable fuel a.root (address a) index value
    a1 ← split_root_if_full (record a { root = r.0 })
    a2 ← promote_only_child a1.root a1
    a3 ← notify_parent_if_needed a2
    pure (set_callback_with_child index value a3, r.1)

  unfoldable pub insert_value : ℕ → Array E X S → ℕ → V → Action S (Array E X S)
  unfolding split_root_if_full
  insert_value fuel a index value = do
    root ← insert_in_slab byte_size c storage storable fuel a.root (address a) index value
    a1 ← split_root_if_full (record a { root = root })
    a2 ← lift (increment_index_from index a1)
    a3 ← notify_parent_if_needed a2
    pure (set_callback_with_child index value a3)

  unfoldable pub append : ℕ → Array E X S → V → Action S (Array E X S)
  append fuel a value = insert_value fuel a (count a) value

  -- `remove`, which `Remove` calls first.
  unfoldable pub remove_value : ℕ → Array E X S → ℕ → Action S (Array E X S × E)
  unfolding promote_only_child
  remove_value fuel a index = do
    r ← remove_in_slab byte_size c storage storable fuel a.root index
    a1 ← promote_only_child r.0 (record a { root = r.0 })
    a2 ← lift (decrement_index_from index a1)
    a3 ← notify_parent_if_needed a2
    pure (a3, r.1)

  -- The elements come back in the order in which the callback gets them.
  unfoldable pub pop_iterate : ℕ → Array E X S → Action S (Array E X S × List E)
  unfolding empty_root is_inlined extra_data_of
  pop_iterate fuel a = do
    r ← pop_iterate_slab byte_size c storage storable fuel a.root
    let inlined = is_inlined r.0
    let root = empty_root (header_of r.0).slab_id (extra_data_of r.0) inlined
    (if inlined then pure tt else store_array_slab byte_size c storage root)
    pure (record a { root = root }, r.1)
