-- ===== src/Map/Hkey/Slabs.antt =====
-- Split, Merge, LendToRight, BorrowFromRight, CanLendToLeft and CanLendToRight of hkeyElements
-- (map_elements_hashkey.go). The loops of Split and of the last two are those of array leaves.
use atree.Prelude.{
  ℕ, ◌+◌, ◌-◌, ◌*◌, ◌%◌, Bool, false, not, ◌&&◌, List, [], ◌∷◌, ◌++◌, ltb, leb, ◌==◌, if◌then◌else◌,
  length, take, drop, add32, sub32, sub64, u32_mod, reverse,
}
use atree.Errors.{Result, ok, err, new_slab_rebalance_error}
use atree.Settings.{Settings, hkey_elements_prefix_size, map_data_slab_prefix_size}
use atree.Array.Data.Rebalance.{mid_of, split_point, can_lend_loop}
use atree.Map.Slab.{HkeyElements}
use atree.Map.Hkey.{sized}

module _ {T : Type 0} where
  -- The end of Split, for the size of all elements, and the size and the number of those of the left
  -- part.
  unfoldable pub cut_at : ℕ → ℕ × ℕ → HkeyElements T → HkeyElements T × HkeyElements T
  cut_at data_size (left_size, left_count) e = (
    record e {
      hkeys = take left_count e.hkeys;
      elems = take left_count e.elems;
      size = add32 hkey_elements_prefix_size left_size;
    },
    record {
      hkeys = drop left_count e.hkeys;
      elems = drop left_count e.elems;
      size = add32 (sub32 data_size left_size) hkey_elements_prefix_size;
      level = e.level;
    },
  )

  unfoldable pub merge_elements : HkeyElements T → HkeyElements T → HkeyElements T
  merge_elements e right = record e {
    hkeys = e.hkeys ++ right.hkeys;
    elems = e.elems ++ right.elems;
    size = add32 e.size (sub32 right.size hkey_elements_prefix_size);
  }

  -- The size of the elements of both sides, without the prefixes.
  abbrev pub both_sizes : HkeyElements T → HkeyElements T → ℕ
  both_sizes e right = sub32 (add32 e.size right.size) (hkey_elements_prefix_size * 2)

  -- The end of LendToRight, for the size of all elements, and the size and the number of those that
  -- the left side keeps.
  unfoldable pub lend_at :
      ℕ → ℕ × ℕ → HkeyElements T → HkeyElements T → HkeyElements T × HkeyElements T
  lend_at size (left_size, left_count) e right = (
    record e {
      hkeys = take left_count e.hkeys;
      elems = take left_count e.elems;
      size = add32 hkey_elements_prefix_size left_size;
    },
    record right {
      hkeys = drop left_count e.hkeys ++ right.hkeys;
      elems = drop left_count e.elems ++ right.elems;
      size = add32 (sub32 size left_size) hkey_elements_prefix_size;
    },
  )

  -- The end of BorrowFromRight, for the size of all elements, and the size and the number of those
  -- that the left side ends with.
  unfoldable pub borrow_at :
      ℕ → ℕ × ℕ → HkeyElements T → HkeyElements T → HkeyElements T × HkeyElements T
  borrow_at size (left_size, left_count) e right =
      let start = left_count - length e.elems in
      (
        record e {
          hkeys = e.hkeys ++ take start right.hkeys;
          elems = e.elems ++ take start right.elems;
          size = add32 left_size hkey_elements_prefix_size;
        },
        record right {
          hkeys = drop start right.hkeys;
          elems = drop start right.elems;
          size = add32 (sub32 size left_size) hkey_elements_prefix_size;
        },
      )

module _ {T : Type 0} (elem_size : T → ℕ) where
  -- The loop of LendToRight, over the left elements from the last to the first.
  unfoldable pub lend_loop : ℕ → ℕ → ℕ → ℕ → ℕ → List T → ℕ × ℕ
  lend_loop least size mid_point left_size left_count [] = (left_size, left_count)
  lend_loop least size mid_point left_size left_count (t ∷ ts) =
      if ltb (sub32 left_size (sized elem_size t)) mid_point && leb least (sub32 size left_size)
      then (left_size, left_count)
      else lend_loop least size mid_point (sub32 left_size (sized elem_size t)) (left_count - 1) ts

  -- The loop of BorrowFromRight, over the right elements.
  unfoldable pub borrow_loop : ℕ → ℕ → ℕ → ℕ → ℕ → List T → ℕ × ℕ
  borrow_loop least size mid_point left_size left_count [] = (left_size, left_count)
  borrow_loop least size mid_point left_size left_count (t ∷ ts) =
      let size' = add32 left_size (sized elem_size t) in
      if ltb mid_point size'
      then (if leb least (sub32 (sub32 size left_size) (sized elem_size t))
          then (size', left_count + 1)
          else (left_size, left_count))
      else borrow_loop least size mid_point size' (left_count + 1) ts

  unfoldable pub split_elements : HkeyElements T → HkeyElements T × HkeyElements T
  unfolding cut_at
  split_elements e =
      let data_size = sub32 e.size hkey_elements_prefix_size in
      cut_at data_size (split_point (sized elem_size) data_size (mid_of data_size) 0 0 e.elems) e

module _ {T : Type 0} (elem_size : T → ℕ) (c : Settings) where
  -- `uint32(minSize)` of LendToRight and BorrowFromRight, and of CanLendToLeft and CanLendToRight.
  unfoldable pub least_elements_size : ℕ
  least_elements_size =
      sub64 (sub64 c.min_threshold map_data_slab_prefix_size) hkey_elements_prefix_size % u32_mod

  unfoldable pub least_lender_size : ℕ
  least_lender_size = sub64 c.min_threshold map_data_slab_prefix_size % u32_mod

  unfoldable pub lend_elements :
      HkeyElements T → HkeyElements T → Result (HkeyElements T × HkeyElements T)
  unfolding lend_at least_elements_size lend_loop
  lend_elements e right =
      let size = both_sizes e right in
      if not (e.level == right.level)
      then err new_slab_rebalance_error
      else ok (
          lend_at size
            (lend_loop elem_size least_elements_size size (mid_of size)
              (sub32 e.size hkey_elements_prefix_size) (length e.elems) (reverse e.elems))
            e right)

  unfoldable pub borrow_elements :
      HkeyElements T → HkeyElements T → Result (HkeyElements T × HkeyElements T)
  unfolding borrow_at least_elements_size borrow_loop
  borrow_elements e right =
      let size = both_sizes e right in
      if not (e.level == right.level)
      then err new_slab_rebalance_error
      else ok (
          borrow_at size
            (borrow_loop elem_size least_elements_size size (mid_of size)
              (sub32 e.size hkey_elements_prefix_size) (length e.elems) right.elems)
            e right)

  unfoldable pub elements_can_lend : List T → HkeyElements T → ℕ → Bool
  unfolding least_lender_size
  elements_can_lend elems e size =
      if ltb (length e.elems) 2
      then false
      else if ltb (sub32 e.size size) least_lender_size
      then false
      else can_lend_loop (sized elem_size) least_lender_size e.size size 0 elems

  unfoldable pub elements_can_lend_left : HkeyElements T → ℕ → Bool
  unfolding elements_can_lend
  elements_can_lend_left e size = elements_can_lend e.elems e size

  unfoldable pub elements_can_lend_right : HkeyElements T → ℕ → Bool
  unfolding elements_can_lend
  elements_can_lend_right e size = elements_can_lend (reverse e.elems) e size
