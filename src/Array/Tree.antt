-- ===== src/Array/Tree.antt =====
-- The slabs of an array as nodes of a tree: getArraySlab (array_slab.go), and SplitChildSlab and
-- MergeOrRebalanceChildSlab of ArrayMetaDataSlab (array_metadata_slab.go).
pub mod Parent
pub mod Siblings
use atree.Prelude.{
  ℕ, zero, suc, ◌+◌, ◌-◌, Bool, true, false, ◌||◌, Option, none, some, List, [], ◌∷◌, ◌++◌, ltb,
  leb, if◌then◌else◌, length, get_elem?, set, take, drop, remove_at, add32, sub32,
}
use atree.Ids.{SlabId}
use atree.Errors.{Result, ok, err, panic, new_slab_not_found_error, new_slab_data_error}
use atree.Errors
use atree.Action.{Action, pure, raise, lift, ◌>>=◌, ◌>>◌, continue}
use atree.Storage.Interface.{SlabStorage, wrapped}
use atree.Settings.{Settings, array_slab_header_size}
use atree.Array.Slab.{ArraySlabHeader, ArrayDataSlab, ArrayMetaDataSlab, Slab, data_slab, meta_slab}
use atree.Array.Data.Rebalance
use atree.Array.Meta

-- `ArraySlab`
pub data ArraySlab (E X : Type 0) : Type 0 where
  leaf : ArrayDataSlab E X → ArraySlab E X
  node : ArrayMetaDataSlab X → ArraySlab E X

-- `xs[i] = v`
unfoldable pub put : {A : Type 0} → List A → ℕ → A → Result (List A)
put xs i v = if ltb i (length xs) then ok (set xs i v) else panic

module _ {E X : Type 0} where
  unfoldable pub header_of : ArraySlab E X → ArraySlabHeader
  header_of (leaf a) = a.header
  header_of (node a) = a.header

  unfoldable pub slab_of : {O : Type 0} → ArraySlab E X → Slab E X O
  slab_of (leaf a) = data_slab a
  slab_of (node a) = meta_slab a

  unfoldable pub is_inlined : ArraySlab E X → Bool
  is_inlined (leaf a) = a.inlined
  is_inlined (node a) = false

  unfoldable pub extra_data_of : ArraySlab E X → Option X
  extra_data_of (leaf a) = a.extra_data
  extra_data_of (node a) = a.extra_data

  -- The type assertion in getArraySlab.
  unfoldable pub as_array_slab : {O : Type 0} → Slab E X O → Result (ArraySlab E X)
  as_array_slab (data_slab a) = ok (leaf a)
  as_array_slab (meta_slab a) = ok (node a)
  as_array_slab (Slab.other o) = err new_slab_data_error

  -- `Merge`: two slabs of different kinds fail the type assertion.
  unfoldable pub merge_slabs : ArraySlab E X → ArraySlab E X → Result (ArraySlab E X)
  merge_slabs (leaf a) (leaf b) = ok (leaf (Rebalance.merge a b))
  merge_slabs (node a) (node b) = Errors.◌>>=◌ (Meta.merge a b) (λ m. ok (node m))
  merge_slabs _ _ = panic

module _ {X : Type 0} where
  -- What SplitChildSlab does to the parent, for the headers of the two halves.
  unfoldable pub with_split :
      ArrayMetaDataSlab X → ℕ → ArraySlabHeader → ArraySlabHeader → Result (ArrayMetaDataSlab X)
  with_split a i l r =
      if ltb i (length a.children_headers)
      then elim (get_elem? (a.children_count_sum ++ 0 ∷ []) i) [
        | none ↦ panic
        | some sum ↦ ok (record a {
          header = record (a.header) { size = add32 a.header.size array_slab_header_size };
          children_headers = take i a.children_headers ++ l ∷ r ∷ drop (suc i) a.children_headers;
          children_count_sum =
              take i a.children_count_sum ++ sub32 sum r.count ∷ drop i a.children_count_sum;
        })
      ]
      else panic

  -- What a rebalance of the children at `i` and `i + 1` does to the parent; `old` is the count of
  -- the left one before it.
  unfoldable pub with_rebalanced :
      ArrayMetaDataSlab X → ℕ → ℕ → ArraySlabHeader → ArraySlabHeader → Result (ArrayMetaDataSlab X)
  unfolding put
  with_rebalanced a i old l r = elim (get_elem? a.children_count_sum i) [
    | none ↦ panic
    | some sum ↦ Errors.◌>>=◌ (put a.children_headers i l) (λ hs.
        Errors.◌>>=◌ (put hs (suc i) r) (λ hs'. ok (record a {
          children_headers = hs';
          children_count_sum = set a.children_count_sum i (add32 (sub32 sum old) l.count);
        })))
  ]

  -- What a merge of the children at `i` and `i + 1` does to the parent.
  unfoldable pub with_merged :
      ArrayMetaDataSlab X → ℕ → ArraySlabHeader → Result (ArrayMetaDataSlab X)
  with_merged a i m =
      if ltb (suc i) (length a.children_headers)
      then (if ltb i (length a.children_count_sum)
          then ok (record a {
            header = record (a.header) { size = sub32 a.header.size array_slab_header_size };
            children_headers = remove_at (set a.children_headers i m) (suc i);
            children_count_sum = remove_at a.children_count_sum i;
          })
          else panic)
      else panic

module _ {E X : Type 0} (byte_size : E → ℕ) (c : Settings) where
  unfoldable pub slab_can_lend_to_left : ArraySlab E X → ℕ → Bool
  slab_can_lend_to_left (leaf a) size = Rebalance.can_lend_to_left byte_size c a size
  slab_can_lend_to_left (node a) size = Meta.can_lend c a size

  unfoldable pub slab_can_lend_to_right : ArraySlab E X → ℕ → Bool
  slab_can_lend_to_right (leaf a) size = Rebalance.can_lend_to_right byte_size c a size
  slab_can_lend_to_right (node a) size = Meta.can_lend c a size

  unfoldable pub lend_slab_to_right :
      ArraySlab E X → ArraySlab E X → Result (ArraySlab E X × ArraySlab E X)
  lend_slab_to_right (leaf a) (leaf b) =
      let p = Rebalance.lend_to_right byte_size c a b in ok (leaf p.0, leaf p.1)
  lend_slab_to_right (node a) (node b) =
      Errors.◌>>=◌ (Meta.lend_to_right a b) (λ p. ok (node p.0, node p.1))
  lend_slab_to_right _ _ = panic

  unfoldable pub borrow_slab_from_right :
      ArraySlab E X → ArraySlab E X → Result (ArraySlab E X × ArraySlab E X)
  borrow_slab_from_right (leaf a) (leaf b) =
      let p = Rebalance.borrow_from_right byte_size c a b in ok (leaf p.0, leaf p.1)
  borrow_slab_from_right (node a) (node b) =
      Errors.◌>>=◌ (Meta.borrow_from_right a b) (λ p. ok (node p.0, node p.1))
  borrow_slab_from_right _ _ = panic

-- What MergeOrRebalanceChildSlab does, and with which siblings: the table above it in the source.
pub data Plan (E X : Type 0) : Type 0 where
  lend_from_left borrow_from_right merge_with_left merge_with_right : ArraySlab E X → Plan E X
  stuck : Plan E X

module _ {E X : Type 0} where
  choose_merge : Option (ArraySlab E X) → Option (ArraySlab E X) → Plan E X
  choose_merge none none = stuck
  choose_merge none (some r) = merge_with_right r
  choose_merge (some l) none = merge_with_left l
  choose_merge (some l) (some r) =
      if ltb (header_of l).size (header_of r).size then merge_with_left l else merge_with_right r

  abbrev can : (ArraySlab E X → Bool) → Option (ArraySlab E X) → Bool
  can test none = false
  can test (some s) = test s

  -- The tests say whether the left and the right sibling can lend.
  unfoldable pub plan :
      (ArraySlab E X → Bool)
      → (ArraySlab E X → Bool)
      → Option (ArraySlab E X)
      → Option (ArraySlab E X)
      → Plan E X
  unfolding choose_merge
  plan lends_right lends_left none none = stuck
  plan lends_right lends_left none (some r) =
      if lends_left r then borrow_from_right r else choose_merge none (some r)
  plan lends_right lends_left (some l) none =
      if lends_right l then lend_from_left l else choose_merge (some l) none
  plan lends_right lends_left (some l) (some r) =
      if lends_right l || lends_left r
      then (if lends_right l
          then (if lends_left r
              then (if ltb (header_of r).size (header_of l).size
                  then lend_from_left l
                  else borrow_from_right r)
              else lend_from_left l)
          else borrow_from_right r)
      else choose_merge (some l) (some r)

module _ {E X O S : Type 0} (byte_size : E → ℕ) (c : Settings)
    (storage : SlabStorage S (Slab E X O)) where
  abbrev pub store_array_slab : ArraySlab E X → Action S (Unit {0})
  store_array_slab a = wrapped (storage.store (header_of a).slab_id (slab_of a))

  unfoldable pub get_array_slab : SlabId → Action S (ArraySlab E X)
  get_array_slab id = do
    found ← wrapped (storage.retrieve id)
    elim found [
      | none ↦ raise (new_slab_not_found_error id)
      | some slab ↦ lift (as_array_slab slab)
    ]

  unfoldable pub split_slab : ArraySlab E X → Action S (ArraySlab E X × ArraySlab E X)
  split_slab (leaf a) = do p ← Rebalance.split byte_size storage a; pure (leaf p.0, leaf p.1)
  split_slab (node a) = do p ← Meta.split storage a; pure (node p.0, node p.1)

  -- The parent that SplitChildSlab leaves.
  unfoldable pub split_child_slab :
      ArrayMetaDataSlab X → ArraySlab E X → ℕ → Action S (ArrayMetaDataSlab X)
  unfolding split_slab with_split header_of
  split_child_slab a child i = do
    p ← split_slab child
    m ← lift (with_split a i (header_of p.0) (header_of p.1))
    store_array_slab p.0
    store_array_slab p.1
    store_array_slab (node m)
    pure m

  unfoldable pub get_sibling : Option ArraySlabHeader → Action S (Option (ArraySlab E X))
  get_sibling none = lift panic
  get_sibling (some h) = do s ← get_array_slab h.slab_id; pure (some s)

  unfoldable pub left_sibling : ArrayMetaDataSlab X → ℕ → Action S (Option (ArraySlab E X))
  left_sibling a zero = pure none
  left_sibling a (suc i) = get_sibling (get_elem? a.children_headers i)

  unfoldable pub right_sibling : ArrayMetaDataSlab X → ℕ → Action S (Option (ArraySlab E X))
  right_sibling a i =
      if ltb (suc i) (length a.children_headers)
      then get_sibling (get_elem? a.children_headers (suc i))
      else pure none

  -- The end of a rebalance of the children at `i` and `i + 1`.
  unfoldable pub finish_rebalance :
      ArrayMetaDataSlab X → ℕ → ℕ → ArraySlab E X × ArraySlab E X → Action S (ArrayMetaDataSlab X)
  finish_rebalance a i old p = do
    m ← lift (with_rebalanced a i old (header_of p.0) (header_of p.1))
    store_array_slab p.0
    store_array_slab p.1
    store_array_slab (node m)
    pure m

  -- The merge of the child `right` at `i + 1` into the child `left` at `i`.
  unfoldable pub merge_pair :
      ArrayMetaDataSlab X → ℕ → ArraySlab E X → ArraySlab E X → Action S (ArrayMetaDataSlab X)
  merge_pair a i left right = do
    merged ← lift (merge_slabs left right)
    m ← lift (with_merged a i (header_of merged))
    store_array_slab merged
    store_array_slab (node m)
    wrapped (storage.remove (header_of right).slab_id)
    pure m

  unfoldable pub carry_out :
      ArrayMetaDataSlab X → ArraySlab E X → ℕ → Plan E X → Action S (ArrayMetaDataSlab X)
  carry_out a child i (lend_from_left l) = do
    p ← lift (lend_slab_to_right byte_size c l child)
    finish_rebalance a (i - 1) (header_of l).count p
  carry_out a child i (borrow_from_right r) = do
    p ← lift (borrow_slab_from_right byte_size c child r)
    finish_rebalance a i (header_of child).count p
  carry_out a child i (merge_with_left l) = merge_pair a (i - 1) l child
  carry_out a child i (merge_with_right r) = merge_pair a i child r
  carry_out a child i stuck = lift panic

  -- The parent that MergeOrRebalanceChildSlab leaves.
  unfoldable pub merge_or_rebalance_child_slab :
      ArrayMetaDataSlab X → ArraySlab E X → ℕ → ℕ → Action S (ArrayMetaDataSlab X)
  unfolding left_sibling right_sibling get_sibling carry_out merge_pair finish_rebalance
  merge_or_rebalance_child_slab a child i size = do
    l ← left_sibling a i
    r ← right_sibling a i
    carry_out a child i (
        plan (λ s. slab_can_lend_to_right byte_size c s size)
          (λ s. slab_can_lend_to_left byte_size c s size) l r)
