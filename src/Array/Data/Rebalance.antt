-- ===== src/Array/Data/Rebalance.antt =====
-- Split, Merge, LendToRight, BorrowFromRight, CanLendToLeft and CanLendToRight of ArrayDataSlab
-- (array_data_slab.go).
pub mod Split
pub mod Promise
pub mod Lendable
pub mod Lend
pub mod Borrow
pub mod Merge
use atree.Prelude.{
  ℕ, zero, suc, ◌+◌, ◌-◌, ◌*◌, ◌/◌, ◌%◌, ◌≡◌, Bool, true, false, not, ◌&&◌, Option, none, some,
  List, [], ◌∷◌, ◌++◌, ltb, leb, ◌==◌, if◌then◌else◌, length, take, drop, add32, sub32, u32_mod,
  reverse,
}
use atree.Ids.{SlabId}
use atree.Errors.{Result, ok, err, panic, new_slab_split_error}
use atree.Action.{Action, pure, raise, lift, ◌>>=◌, ◌>>◌}
use atree.Storage.Interface.{SlabStorage, wrapped}
use atree.Settings.{Settings, array_data_slab_prefix_size}
use atree.Array.Slab.{ArraySlabHeader, ArrayDataSlab, Slab}

-- `(size + 1) >> 1`
unfoldable pub mid_of : ℕ → ℕ
mid_of size = add32 size 1 / 2

-- `uint32(minThreshold)`
unfoldable pub least_size : Settings → ℕ
least_size c = c.min_threshold % u32_mod

module _ {E : Type 0} (byte_size : E → ℕ) where
  -- The loop of Split: the size and the number of elements for the left slab. `i` is the index of
  -- the first of the elements, and `left_size` the size of those before it.
  unfoldable pub split_point : ℕ → ℕ → ℕ → ℕ → List E → ℕ × ℕ
  split_point data_size mid_point i left_size [] = (left_size, 0)
  split_point data_size mid_point i left_size (e ∷ es) =
      let elem_size = byte_size e in
      if leb mid_point (add32 left_size elem_size)
      then (if leb left_size (sub32 (sub32 data_size left_size) elem_size)
          then (add32 left_size elem_size, i + 1)
          else (left_size, i))
      else split_point data_size mid_point (i + 1) (add32 left_size elem_size) es

  -- The loop of LendToRight, over the left slab's elements from the last to the first: the size and
  -- the number of elements that the left slab keeps.
  unfoldable pub lend_point : ℕ → ℕ → ℕ → ℕ → ℕ → List E → ℕ × ℕ
  lend_point least size mid_point left_size left_count [] = (left_size, left_count)
  lend_point least size mid_point left_size left_count (e ∷ es) =
      let elem_size = byte_size e in
      if ltb (sub32 left_size elem_size) mid_point && leb least (sub32 size left_size)
      then (left_size, left_count)
      else lend_point least size mid_point (sub32 left_size elem_size) (sub32 left_count 1) es

  -- The loop of BorrowFromRight, over the right slab's elements: the size and the number of
  -- elements that the left slab ends with.
  unfoldable pub borrow_point : ℕ → ℕ → ℕ → ℕ → ℕ → List E → ℕ × ℕ
  borrow_point least size mid_point left_size left_count [] = (left_size, left_count)
  borrow_point least size mid_point left_size left_count (e ∷ es) =
      let elem_size = byte_size e in
      if ltb mid_point (add32 left_size elem_size)
      then (if leb least (sub32 (sub32 size left_size) elem_size)
          then (add32 left_size elem_size, add32 left_count 1)
          else (left_size, left_count))
      else borrow_point least size mid_point (add32 left_size elem_size) (add32 left_count 1) es

  -- The loop of CanLendToLeft, and of CanLendToRight on the reversed elements.
  unfoldable pub can_lend_loop : ℕ → ℕ → ℕ → ℕ → List E → Bool
  can_lend_loop least header_size size lend_size [] = false
  can_lend_loop least header_size size lend_size (e ∷ es) =
      let lend_size' = add32 lend_size (byte_size e) in
      if ltb (sub32 header_size lend_size') least
      then false
      else if leb size lend_size'
      then true
      else can_lend_loop least header_size size lend_size' es

module _ {E X : Type 0} where
  -- The two slabs of Split, for the size and the number of elements of the left one, once the right
  -- one has an ID.
  unfoldable pub split_into :
      SlabId → ℕ × ℕ → ArrayDataSlab E X → ArrayDataSlab E X × ArrayDataSlab E X
  split_into id (left_size, left_count) a =
      let data_size = sub32 a.header.size array_data_slab_prefix_size in
      (
        record a {
          elements = take left_count a.elements;
          header = record (a.header) {
            size = add32 array_data_slab_prefix_size left_size;
            count = left_count % u32_mod;
          };
          next = id;
        },
        record {
          next = a.next;
          header = record {
            slab_id = id;
            size = sub32 (add32 array_data_slab_prefix_size data_size) left_size;
            count = (length a.elements - left_count) % u32_mod;
          };
          elements = drop left_count a.elements;
          extra_data = none;
          inlined = false;
        },
      )

  unfoldable pub merge : ArrayDataSlab E X → ArrayDataSlab E X → ArrayDataSlab E X
  merge a right = record a {
    elements = a.elements ++ right.elements;
    header = record (a.header) {
      size = sub32 (add32 a.header.size right.header.size) array_data_slab_prefix_size;
      count = add32 a.header.count right.header.count;
    };
    next = right.next;
  }

  -- The end of LendToRight, for the size and the number of elements that the left slab keeps.
  unfoldable pub lend_into :
      ℕ × ℕ → ArrayDataSlab E X → ArrayDataSlab E X → ArrayDataSlab E X × ArrayDataSlab E X
  lend_into (left_size, left_count) a right = (
    record a {
      elements = take left_count a.elements;
      header = record (a.header) { size = left_size; count = left_count };
    },
    record right {
      elements = drop left_count a.elements ++ right.elements;
      header = record (right.header) {
        size = sub32 (add32 a.header.size right.header.size) left_size;
        count = sub32 (add32 a.header.count right.header.count) left_count;
      };
    },
  )

  -- The end of BorrowFromRight, for the size and the number of elements that the left slab ends
  -- with.
  unfoldable pub borrow_into :
      ℕ × ℕ → ArrayDataSlab E X → ArrayDataSlab E X → ArrayDataSlab E X × ArrayDataSlab E X
  borrow_into (left_size, left_count) a right =
      let start = sub32 left_count a.header.count in
      (
        record a {
          elements = a.elements ++ take start right.elements;
          header = record (a.header) { size = left_size; count = left_count };
        },
        record right {
          elements = drop start right.elements;
          header = record (right.header) {
            size = sub32 (add32 a.header.size right.header.size) left_size;
            count = sub32 (add32 a.header.count right.header.count) left_count;
          };
        },
      )

module _ {E X : Type 0} (byte_size : E → ℕ) where
  unfoldable pub split_of : SlabId → ArrayDataSlab E X → ArrayDataSlab E X × ArrayDataSlab E X
  split_of id a =
      let data_size = sub32 a.header.size array_data_slab_prefix_size in
      split_into id (split_point byte_size data_size (mid_of data_size) 0 0 a.elements) a

  unfoldable pub split :
      {O S : Type 0}
      → SlabStorage S (Slab E X O)
      → ArrayDataSlab E X
      → Action S (ArrayDataSlab E X × ArrayDataSlab E X)
  split storage a =
      if ltb (length a.elements) 2
      then raise new_slab_split_error
      else do id ← wrapped (storage.generate_slab_id a.header.slab_id.address); pure (split_of id a)

module _ {E X : Type 0} (byte_size : E → ℕ) (c : Settings) where
  unfoldable pub lend_to_right :
      ArrayDataSlab E X → ArrayDataSlab E X → ArrayDataSlab E X × ArrayDataSlab E X
  lend_to_right a right =
      let size = add32 a.header.size right.header.size in
      lend_into
        (lend_point byte_size (least_size c) size (mid_of size) a.header.size a.header.count
          (reverse a.elements))
        a right

  unfoldable pub borrow_from_right :
      ArrayDataSlab E X → ArrayDataSlab E X → ArrayDataSlab E X × ArrayDataSlab E X
  borrow_from_right a right =
      let size = add32 a.header.size right.header.size in
      borrow_into
        (borrow_point byte_size (least_size c) size (mid_of size) a.header.size a.header.count
          right.elements)
        a right

  can_lend : List E → ArrayDataSlab E X → ℕ → Bool
  can_lend elements a size =
      if ltb (length a.elements) 2
      then false
      else if ltb (sub32 a.header.size size) (least_size c)
      then false
      else can_lend_loop byte_size (least_size c) a.header.size size 0 elements

  unfoldable pub can_lend_to_left : ArrayDataSlab E X → ℕ → Bool
  unfolding can_lend
  can_lend_to_left a size = can_lend a.elements a size

  unfoldable pub can_lend_to_right : ArrayDataSlab E X → ℕ → Bool
  unfolding can_lend
  can_lend_to_right a size = can_lend (reverse a.elements) a size
