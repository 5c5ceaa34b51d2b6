-- ===== src/Tests/Siblings.antt =====
-- An array of two leaves below an inner node, in a basic storage, where the right leaf lacks bytes.
use atree.Prelude.{
  ℕ, ◌+◌, ◌≡◌, refl, false, none, some, List, [], ◌∷◌, length, sum_by, arith, add32, sub32,
}
use atree.Bytes.{Bytes8_eq, be_uint64}
use atree.Ids.{SlabId_eq}
use atree.SlabId.{index_as_uint64}
use atree.Errors.{ok}
use atree.GoMap
use atree.Storage.Basic.{slab_storage, last_index}
use atree.Storage.Basic.Laws.{basic_view}
use atree.Array.Slab.{ArrayDataSlab, ArrayMetaDataSlab, meta_slab, data_slab}
use atree.Array.Data.{is_full, is_underflow}
use atree.Array.Meta.{count_sums}
use atree.Array.Tree.{leaf, merge_or_rebalance_child_slab}
use atree.Array.Ops.Restore.{IsParent}
use atree.Array.Ops.Underflow.{IsLeftSibling, Restored}
use atree.Array.Ops.Carry.{merge_or_rebalance_child_slab_lem}
use atree.Tests.Objects.{id_of, small_settings, small_settings-IsSettings}
use atree.Tests.Trees.{Store, itself, lawful}

abbrev leaf_of : ℕ → ℕ → List ℕ → ArrayDataSlab ℕ (Unit {0})
leaf_of index next es = record {
  next = id_of 1 next;
  header = record { slab_id = id_of 1 index; size = 21 + sum_by itself es; count = length es };
  elements = es;
  extra_data = none;
  inlined = false;
}

abbrev rich : ArrayDataSlab ℕ (Unit {0})
rich = leaf_of 2 3 (100 ∷ 100 ∷ 100 ∷ [])

abbrev short : ArrayDataSlab ℕ (Unit {0})
short = leaf_of 3 0 (50 ∷ [])

abbrev parent : ArrayMetaDataSlab (Unit {0})
parent = record {
  header = record { slab_id = id_of 1 1; size = 40; count = 4 };
  children_headers = rich.header ∷ short.header ∷ [];
  children_count_sum = 3 ∷ 4 ∷ [];
  extra_data = some tt;
}

abbrev lacking : Store
lacking = record {
  slabs =
      (id_of 1 1, meta_slab parent)
      ∷ (id_of 1 2, data_slab rich)
      ∷ (id_of 1 3, data_slab short)
      ∷ [];
  slab_index = ((id_of 1 0).address, (id_of 1 3).index) ∷ [];
}

rich-IsLeftSibling :
    IsLeftSibling itself small_settings slab_storage basic_view lawful
      (id_of 1 0).address
      parent
      short
      1
      lacking
      (some rich)
unfolding GoMap.lookup SlabId_eq Bytes8_eq is_full is_underflow last_index be_uint64 index_as_uint64
rich-IsLeftSibling = (
  0,
  refl,
  refl,
  record {
    held = refl;
    is_leaf = omega arith;
    sized = omega arith;
    not_full = refl;
    enough = refl;
  },
  record {
    used_x = refl;
    used_y = refl;
    used_o = refl;
    x_y = refl;
    y_x = refl;
    o_x = refl;
    o_y = refl;
    y_o = refl;
  },
)

merge_or_rebalance_child_slab_lem_example :
    (m : ArrayMetaDataSlab (Unit {0})) × (s' : Store) × (merge_or_rebalance_child_slab itself
        small_settings slab_storage parent
        (leaf short)
        1
        57
        lacking
      ≡ (ok m, s'))
    × IsParent itself small_settings slab_storage basic_view lawful (id_of 1 0).address parent m s'
    × Restored itself small_settings slab_storage basic_view lawful
        (id_of 1 0).address
        parent
        short
        1
        lacking
        (some rich)
        none
        m
        s'
unfolding count_sums add32 sub32 is_underflow
merge_or_rebalance_child_slab_lem_example =
    merge_or_rebalance_child_slab_lem itself small_settings slab_storage basic_view lawful
      (id_of 1 0).address parent short 1 57 lacking small_settings-IsSettings
      (record {
        sized = refl;
        counted = refl;
        summed = refl;
        fits = omega arith;
        few = omega arith;
      })
      (omega arith) (omega arith) refl refl (some rich) none rich-IsLeftSibling (omega arith)
      (omega arith)
