-- ===== src/Array/Meta.antt =====
-- ArrayMetaDataSlab of array_metadata_slab.go: an inner node of an array.
pub mod Shape
pub mod Search
pub mod Rebalance
use atree.Prelude.{
  ℕ, zero, suc, ◌+◌, ◌-◌, ◌*◌, ◌/◌, ◌%◌, ◌≡◌, Bool, true, false, not, Option, none, some, List, [],
  ◌∷◌, ◌++◌, ltb, leb, ◌==◌, if◌then◌else◌, length, get_elem?, take, drop, add32, sub32, mul32,
  add64, sub64, u32_mod,
}
use atree.Ids.{SlabId}
use atree.Errors.{Result, ok, err, panic, new_index_out_of_bounds_error, new_slab_split_error}
use atree.Errors
use atree.Action.{Action, pure, raise, lift, ◌>>=◌, ◌>>◌}
use atree.Storage.Interface.{SlabStorage, wrapped}
use atree.Settings.{Settings, array_slab_header_size, array_meta_data_slab_prefix_size}
use atree.Array.Slab.{ArraySlabHeader, ArrayMetaDataSlab, Slab}

abbrev pub linear_scan_threshold : ℕ
linear_scan_threshold = 32

-- The `for` of the linear scan from position `i`; 0 where no sum is above the index.
unfoldable pub linear_scan : List ℕ → ℕ → ℕ → ℕ
linear_scan [] index i = 0
linear_scan (count_sum ∷ sums) index i =
    if ltb index count_sum then i else linear_scan sums index (i + 1)

-- The binary search between `low` and `high`. A position out of range panics, and the fuel, which is
-- more than the number of sums, never runs out.
unfoldable pub binary_search : List ℕ → ℕ → ℕ → ℕ → ℕ → Result ℕ
binary_search sums index zero low high = panic
binary_search sums index (suc fuel) low high =
    let mid = (low + high) / 2 in
    let lower = binary_search sums index fuel low mid in
    let upper = binary_search sums index fuel (mid + 1) high in
    let step = elim (get_elem? sums mid) as (λ _. Result ℕ) [
      | none ↦ panic
      | some mid_count_sum ↦
          if ltb mid_count_sum index
          then upper
          else if ltb index mid_count_sum
          then lower
          else ok (mid + 1)
    ] in
    if ltb low high then step else ok low

-- The number of bytes of `n` headers: `uint32(n) * arraySlabHeaderSize`.
abbrev pub headers_size : ℕ → ℕ
headers_size n = mul32 (n % u32_mod) array_slab_header_size

-- A loop that sets childrenCountSum, from a base sum.
unfoldable pub count_sums : ℕ → List ArraySlabHeader → List ℕ
count_sums base [] = []
count_sums base (h ∷ hs) = let sum = add32 base h.count in sum ∷ count_sums sum hs

-- A loop that adds up the counts.
unfoldable pub total_count : ℕ → List ArraySlabHeader → ℕ
total_count sum [] = sum
total_count sum (h ∷ hs) = total_count (add32 sum h.count) hs

-- The last entry, where there is one.
unfoldable pub last_sum : List ℕ → Option ℕ
last_sum [] = none
last_sum (x ∷ []) = some x
last_sum (x ∷ y ∷ xs) = last_sum (y ∷ xs)

module _ {X : Type 0} where
  -- The end of childSlabIndexInfo, once the child is found.
  unfoldable pub child_info : ArrayMetaDataSlab X → ℕ → ℕ → Result (ℕ × ℕ × SlabId)
  child_info a index i = elim (get_elem? a.children_headers i) [
    | none ↦ panic
    | some child ↦ elim (get_elem? a.children_count_sum i) [
      | none ↦ panic
      | some sum ↦ ok (i, sub64 (add64 index child.count) sum, child.slab_id)
    ]
  ]

  unfoldable pub child_slab_index_info : ArrayMetaDataSlab X → ℕ → Result (ℕ × ℕ × SlabId)
  unfolding linear_scan binary_search child_info
  child_slab_index_info a index =
      let count = length a.children_count_sum in
      if leb a.header.count index
      then err (new_index_out_of_bounds_error index 0 a.header.count)
      else if ltb count linear_scan_threshold
      then child_info a index (linear_scan a.children_count_sum index 0)
      else Errors.◌>>=◌ (binary_search a.children_count_sum index (count + 1) 0 count)
          (child_info a index)

  unfoldable pub is_full : Settings → ArrayMetaDataSlab X → Bool
  is_full c a = ltb (c.max_threshold % u32_mod) a.header.size

  unfoldable pub is_underflow : Settings → ArrayMetaDataSlab X → Option ℕ
  is_underflow c a =
      let least = c.min_threshold % u32_mod in
      if ltb a.header.size least then some (sub32 least a.header.size) else none

  -- CanLendToLeft and CanLendToRight: `n` is the least number of headers of `size` bytes or more.
  unfoldable pub can_lend : Settings → ArrayMetaDataSlab X → ℕ → Bool
  can_lend c a size =
      let n = (size + (array_slab_header_size - 1)) / array_slab_header_size in
      ltb (c.min_threshold % u32_mod) (sub32 a.header.size (mul32 array_slab_header_size n))

  -- A slab without children has no last sum: there Merge panics.
  unfoldable pub merge : ArrayMetaDataSlab X → ArrayMetaDataSlab X → Result (ArrayMetaDataSlab X)
  unfolding last_sum count_sums
  merge a right = elim (last_sum a.children_count_sum) [
    | none ↦ panic
    | some base ↦ ok (record a {
      header = record (a.header) {
        size = add32 a.header.size (sub32 right.header.size array_meta_data_slab_prefix_size);
        count = add32 a.header.count right.header.count;
      };
      children_headers = a.children_headers ++ right.children_headers;
      children_count_sum = a.children_count_sum ++ count_sums base right.children_headers;
    })
  ]

  -- The two slabs of Split, once the right one has an ID: the left one gets half of the children,
  -- rounded up.
  unfoldable pub split_of : SlabId → ArrayMetaDataSlab X → ArrayMetaDataSlab X × ArrayMetaDataSlab X
  unfolding total_count count_sums
  split_of id a =
      let n = (length a.children_headers + 1) / 2 in
      let left_size = n * array_slab_header_size in
      let left_count = total_count 0 (take n a.children_headers) in
      (
        record a {
          header = record (a.header) {
            count = left_count;
            size = add32 array_meta_data_slab_prefix_size (left_size % u32_mod);
          };
          children_headers = take n a.children_headers;
          children_count_sum = take n a.children_count_sum;
        },
        record {
          header = record {
            slab_id = id;
            size = sub32 a.header.size (left_size % u32_mod);
            count = sub32 a.header.count left_count;
          };
          children_headers = drop n a.children_headers;
          children_count_sum = count_sums 0 (drop n a.children_headers);
          extra_data = none;
        },
      )

  -- The two slabs of LendToRight, which moves the last children of the left slab; a slice of more
  -- children than there are panics.
  unfoldable pub lend_to_right :
      ArrayMetaDataSlab X → ArrayMetaDataSlab X → Result (ArrayMetaDataSlab X × ArrayMetaDataSlab X)
  unfolding total_count count_sums
  lend_to_right a right =
      let n = (length a.children_headers + length right.children_headers) / 2 in
      let moved = drop n a.children_headers ++ right.children_headers in
      if ltb (length a.children_headers) n
      then panic
      else ok (
        record a {
          header = record (a.header) {
            count = total_count 0 (take n a.children_headers);
            size = add32 array_meta_data_slab_prefix_size (headers_size n);
          };
          children_headers = take n a.children_headers;
          children_count_sum = take n a.children_count_sum;
        },
        record right {
          header = record (right.header) {
            count = total_count 0 moved;
            size = add32 array_meta_data_slab_prefix_size (headers_size (length moved));
          };
          children_headers = moved;
          children_count_sum = count_sums 0 moved;
        },
      )

  -- The two slabs of BorrowFromRight, which moves the first children of the right slab; a negative
  -- number of them panics.
  unfoldable pub borrow_from_right :
      ArrayMetaDataSlab X → ArrayMetaDataSlab X → Result (ArrayMetaDataSlab X × ArrayMetaDataSlab X)
  unfolding total_count count_sums
  borrow_from_right a right =
      let n = (length a.children_headers + length right.children_headers) / 2 in
      let m = length a.children_headers + length right.children_headers - n in
      let k = n - length a.children_headers in
      let moved = take k right.children_headers in
      let kept = drop k right.children_headers in
      if ltb n (length a.children_headers)
      then panic
      else ok (
        record a {
          header = record (a.header) {
            count = total_count a.header.count moved;
            size = add32 array_meta_data_slab_prefix_size (headers_size n);
          };
          children_headers = a.children_headers ++ moved;
          children_count_sum = a.children_count_sum ++ count_sums a.header.count moved;
        },
        record right {
          header = record (right.header) {
            count = total_count 0 kept;
            size = add32 array_meta_data_slab_prefix_size (headers_size m);
          };
          children_headers = kept;
          children_count_sum = count_sums 0 kept;
        },
      )

module _ {E X O S : Type 0} (storage : SlabStorage S (Slab E X O)) where
  unfoldable pub split : ArrayMetaDataSlab X → Action S (ArrayMetaDataSlab X × ArrayMetaDataSlab X)
  split a =
      if ltb (length a.children_headers) 2
      then raise new_slab_split_error
      else do id ← wrapped (storage.generate_slab_id a.header.slab_id.address); pure (split_of id a)
