-- ===== src/Tests/Leaves.antt =====
-- Leaves whose elements are numbers that stand for their own sizes, under a threshold of 256 bytes.
use atree.Prelude.{
  ℕ, ◌+◌, ◌≡◌, ◌^◌, ◌<◌, refl, arith, List, [], ◌∷◌, none, some, true, false, length, set,
  insert_at, remove_at, sum_by, sub32, add32,
}
use atree.Bytes.{Bytes8}
use atree.Errors.{ok, wrap_result}
use atree.Action.{Action}
use atree.GoMap
use atree.GoMap.{GoMap}
use atree.Storage.Interface.{SlabStorage}
use atree.Array.Slab.{ArrayDataSlab, Slab, data_slab}
use atree.Array.Data.{
  is_full, is_underflow, insert, remove, set_element, with_inserted, without_element, with_element,
  get_prefix_size, store_unless_inlined, store_slab,
}
use atree.Array.Data.Shape.{AreSized, IsLeaf}
use atree.Array.Data.Update.{IsDataSlab, Updates, insert_lem, remove_lem, set_element_lem}
use atree.Array.Data.Rebalance.{
  split_of, lend_to_right, borrow_from_right, merge, can_lend_to_left, can_lend_to_right,
  can_lend_loop, least_size,
}
use atree.Array.Data.Rebalance.Split.{Splits, split_of-Splits, split_of-InRange}
use atree.Array.Data.Rebalance.Promise.{Rebalances}
use atree.Array.Data.Rebalance.Lend.{lend_to_right-Rebalances}
use atree.Array.Data.Rebalance.Borrow.{borrow_from_right-Rebalances}
use atree.Array.Data.Rebalance.Merge.{Merges, merge_into_left, merge_from_right}
use atree.Tests.Objects.{id_of, small_settings, small_settings-IsSettings}

abbrev Leaf : Type 0
Leaf = ArrayDataSlab ℕ (Unit {0})

abbrev itself : ℕ → ℕ
itself n = n

abbrev leaf : ℕ → List ℕ → Leaf
leaf index es = record {
  next = id_of 1 9;
  header = record { slab_id = id_of 1 index; size = 21 + sum_by itself es; count = length es };
  elements = es;
  extra_data = none;
  inlined = false;
}

abbrev full : Leaf
full = leaf 1 (100 ∷ 100 ∷ 100 ∷ 100 ∷ [])

abbrev rich : Leaf
rich = leaf 1 (100 ∷ 100 ∷ 100 ∷ [])

abbrev short : Leaf
short = leaf 2 (50 ∷ [])

abbrev lone : Leaf
lone = leaf 3 (110 ∷ [])

full-IsLeaf : IsLeaf itself full
full-IsLeaf = omega arith

rich-IsLeaf : IsLeaf itself rich
rich-IsLeaf = omega arith

short-IsLeaf : IsLeaf itself short
short-IsLeaf = omega arith

lone-IsLeaf : IsLeaf itself lone
lone-IsLeaf = omega arith

full-AreSized : AreSized itself 117 full.elements
full-AreSized = omega arith

rich-AreSized : AreSized itself 117 rich.elements
rich-AreSized = omega arith

short-AreSized : AreSized itself 117 short.elements
short-AreSized = omega arith

lone-AreSized : AreSized itself 117 lone.elements
lone-AreSized = omega arith

full-is_full : is_full small_settings full ≡ true
unfolding is_full
full-is_full = refl

rich-is_full : is_full small_settings rich ≡ false
unfolding is_full
rich-is_full = refl

lone-is_full : is_full small_settings lone ≡ false
unfolding is_full
lone-is_full = refl

lone-is_underflow : is_underflow small_settings lone ≡ none
unfolding is_underflow
lone-is_underflow = refl

short-is_underflow : is_underflow small_settings short ≡ some 57
unfolding is_underflow sub32
short-is_underflow = refl

rich-can_lend_to_right : can_lend_to_right itself small_settings rich 57 ≡ true
unfolding can_lend_to_right least_size can_lend_loop sub32 add32
rich-can_lend_to_right = refl

rich-can_lend_to_left : can_lend_to_left itself small_settings rich 57 ≡ true
unfolding can_lend_to_left least_size can_lend_loop sub32 add32
rich-can_lend_to_left = refl

lone-can_lend_to_right : can_lend_to_right itself small_settings lone 57 ≡ false
unfolding can_lend_to_right
lone-can_lend_to_right = refl

lone-can_lend_to_left : can_lend_to_left itself small_settings lone 57 ≡ false
unfolding can_lend_to_left
lone-can_lend_to_left = refl

split_of-Splits_run :
    Splits itself 117
      (id_of 1 5)
      full
      (split_of itself (id_of 1 5) full).0
      (split_of itself (id_of 1 5) full).1
split_of-Splits_run =
    split_of-Splits itself 117 (id_of 1 5) full full-IsLeaf full-AreSized (omega arith)

split_of-InRange_example :
    ((is_full small_settings (split_of itself (id_of 1 5) full).0 ≡ false)
      × (is_underflow small_settings (split_of itself (id_of 1 5) full).0 ≡ none))
    × ((is_full small_settings (split_of itself (id_of 1 5) full).1 ≡ false)
        × (is_underflow small_settings (split_of itself (id_of 1 5) full).1 ≡ none))
split_of-InRange_example =
    split_of-InRange itself small_settings (id_of 1 5) full small_settings-IsSettings full-IsLeaf
      full-AreSized (omega arith) full-is_full (omega arith)

lend_to_right-Rebalances_example :
    Rebalances itself small_settings rich short
      (lend_to_right itself small_settings rich short).0
      (lend_to_right itself small_settings rich short).1
lend_to_right-Rebalances_example =
    lend_to_right-Rebalances itself small_settings rich short 57 small_settings-IsSettings
      rich-IsLeaf short-IsLeaf rich-AreSized short-AreSized rich-is_full short-is_underflow
      rich-can_lend_to_right

borrow_from_right-Rebalances_example :
    Rebalances itself small_settings short rich
      (borrow_from_right itself small_settings short rich).0
      (borrow_from_right itself small_settings short rich).1
borrow_from_right-Rebalances_example =
    borrow_from_right-Rebalances itself small_settings short rich 57 small_settings-IsSettings
      short-IsLeaf rich-IsLeaf short-AreSized rich-AreSized rich-is_full short-is_underflow
      rich-can_lend_to_left

merge_into_left_example : Merges itself small_settings lone short (merge lone short)
merge_into_left_example =
    merge_into_left itself small_settings short lone 57 small_settings-IsSettings short-IsLeaf
      lone-IsLeaf short-AreSized lone-AreSized short-is_underflow lone-is_full lone-is_underflow
      lone-can_lend_to_right

merge_from_right_example : Merges itself small_settings short lone (merge short lone)
merge_from_right_example =
    merge_from_right itself small_settings short lone 57 small_settings-IsSettings short-IsLeaf
      lone-IsLeaf short-AreSized lone-AreSized short-is_underflow lone-is_full lone-is_underflow
      lone-can_lend_to_left

-- A storage that holds slabs in memory, and values that are their own storables.
unfoldable shelf : SlabStorage (GoMap (Slab ℕ (Unit {0}) (Unit {0}))) (Slab ℕ (Unit {0}) (Unit {0}))
shelf = record {
  store = λ id slab s. (ok tt, GoMap.insert id slab s);
  retrieve = λ id s. (ok (GoMap.lookup id s), s);
  remove = λ id s. (ok tt, GoMap.delete id s);
  generate_slab_id = λ address s. (ok (id_of 1 7), s);
}

abbrev plain : Bytes8 → ℕ → ℕ → Action (GoMap (Slab ℕ (Unit {0}) (Unit {0}))) ℕ
plain address limit value s = (ok value, s)

rich-IsDataSlab : IsDataSlab itself rich
unfolding get_prefix_size
rich-IsDataSlab = omega arith

inserted :
    store_unless_inlined itself small_settings shelf plain (with_inserted itself rich 1 40) []
    ≡ (ok tt, (id_of 1 1, data_slab (with_inserted itself rich 1 40)) ∷ [])
unfolding store_unless_inlined store_slab shelf wrap_result GoMap.insert with_inserted
inserted = refl

insert_lem_run :
    (m : Leaf) × (insert itself small_settings shelf plain rich (id_of 1 1).address 1 40 []
      ≡ (ok m, (id_of 1 1, data_slab (with_inserted itself rich 1 40)) ∷ []))
    × Updates itself rich m (insert_at rich.elements 1 40)
insert_lem_run =
    insert_lem itself small_settings shelf plain rich rich-IsDataSlab (id_of 1 1).address 1 40 40 []
      [] ((id_of 1 1, data_slab (with_inserted itself rich 1 40)) ∷ []) (omega arith) (omega arith)
      (omega arith) refl inserted

removed :
    store_unless_inlined itself small_settings shelf plain (without_element itself rich 1 100) []
    ≡ (ok tt, (id_of 1 1, data_slab (without_element itself rich 1 100)) ∷ [])
unfolding store_unless_inlined store_slab shelf wrap_result GoMap.insert without_element
removed = refl

remove_lem_run :
    (m : Leaf) × (remove itself small_settings shelf plain rich 1 []
      ≡ (ok (m, 100), (id_of 1 1, data_slab (without_element itself rich 1 100)) ∷ []))
    × Updates itself rich m (remove_at rich.elements 1)
remove_lem_run =
    remove_lem itself small_settings shelf plain rich rich-IsDataSlab 1 100 []
      ((id_of 1 1, data_slab (without_element itself rich 1 100)) ∷ []) refl removed

replaced :
    store_unless_inlined itself small_settings shelf plain (with_element itself rich 1 40) []
    ≡ (ok tt, (id_of 1 1, data_slab (with_element itself rich 1 40)) ∷ [])
unfolding store_unless_inlined store_slab shelf wrap_result GoMap.insert with_element
replaced = refl

fits_replaced : get_prefix_size rich + sum_by itself (set rich.elements 1 40) < 2 ^ 30
unfolding get_prefix_size
fits_replaced = omega arith

set_element_lem_run :
    (m : Leaf) × (set_element itself small_settings shelf plain rich (id_of 1 1).address 1 40 []
      ≡ (ok (m, 100), (id_of 1 1, data_slab (with_element itself rich 1 40)) ∷ []))
    × Updates itself rich m (set rich.elements 1 40)
set_element_lem_run =
    set_element_lem itself small_settings shelf plain rich rich-IsDataSlab (id_of 1 1).address 1 40
      100 40 [] [] ((id_of 1 1, data_slab (with_element itself rich 1 40)) ∷ []) refl fits_replaced
      refl replaced
