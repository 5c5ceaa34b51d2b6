-- ===== src/Array/Meta/Rebalance.antt =====
-- Merge, Split, LendToRight and BorrowFromRight of ArrayMetaDataSlab (array_metadata_slab.go) keep
-- the invariant of an inner node and the children in order.
use atree.Prelude.{
  ◌+◌, ◌-◌, ◌/◌, ◌≤◌, ◌<◌, ◌≡◌, ◌∙◌, ap, sym, refl, ◌^◌, some, List, ◌++◌, length, take, drop,
  sum_by-append, sum_by-take-drop, length-append, length-take, length-drop, take-append-drop, arith,
  add32, sub32, mul32, ltb, false,
}
use mathlib.Core.List.{append_assoc}
use atree.Ids.{SlabId}
use atree.Errors.{ok}
use atree.Array.Slab.{ArraySlabHeader, ArrayMetaDataSlab}
use atree.Array.Meta.{last_sum, total_count, merge, split_of, lend_to_right, borrow_from_right}
use atree.Array.Meta.Shape.{
  IsMeta, counts, total_count-eq-counts, total_count-counts, count_sums-both, take-count_sums,
  last_sum-count_sums,
}

-- `l` and `r` are inner nodes that hold the children `hs` in order.
pub record Shares {X : Type 0} (hs : List ArraySlabHeader) (left right : SlabId)
    (l r : ArrayMetaDataSlab X) : Type 0 where
  pub same : l.children_headers ++ r.children_headers ≡ hs
  pub left_meta : IsMeta l
  pub right_meta : IsMeta r
  pub left_id : l.header.slab_id ≡ left
  pub right_id : r.header.slab_id ≡ right

module _ {X : Type 0} where
  -- The two slabs of Split of an inner node that satisfies the invariant satisfy it too, hold the
  -- children in order between them, and have the IDs of the node and of the new slab.
  pub split_of-Shares :
      (id : SlabId) (a : ArrayMetaDataSlab X)
      → IsMeta a
      → Shares a.children_headers a.header.slab_id id (split_of id a).0 (split_of id a).1
  unfolding split_of add32 sub32
  split_of-Shares id a h =
      let n = (length a.children_headers + 1) / 2 in
      let hs = a.children_headers in
      let long = length-take n hs (omega (arith, h.sized, h.fits)) in
      let short = length-drop n hs in
      let parts = sum_by-take-drop (λ (g : ArraySlabHeader). g.count) n hs in
      let total : total_count 0 (take n hs) ≡ counts (take n hs) =
        total_count-counts (take n hs) (omega (arith, h.few, h.counted, parts)) in
      record {
        same = take-append-drop n hs;
        left_meta = record {
          sized = omega (arith, h.sized, h.fits, long);
          counted = total;
          summed = ap (take n) h.summed ∙ take-count_sums 0 n hs;
          fits = omega (arith, h.sized, h.fits);
          few = omega (arith, h.few, h.counted, parts, total);
        };
        right_meta = record {
          sized = omega (arith, h.sized, h.fits, short);
          counted = omega (arith, h.few, h.counted, parts, total);
          summed = refl;
          fits = omega (arith, h.sized, h.fits);
          few = omega (arith, h.few, h.counted, parts, total);
        };
        left_id = refl;
        right_id = refl;
      }

  module _ (a right : ArrayMetaDataSlab X) (ha : IsMeta a) (hr : IsMeta right)
      (fits : a.header.size + right.header.size < 2 ^ 30)
      (few : a.header.count + right.header.count < 2 ^ 31) where
    abbrev all : List ArraySlabHeader
    all = a.children_headers ++ right.children_headers

    -- Merge of two inner nodes that satisfy the invariant, the left one with a child, and with
    -- sizes below 2 ^ 30 and counts below 2 ^ 31 together, does not panic, and the result
    -- satisfies the invariant, holds the children of both in order, and keeps the left ID.
    pub merge_lem :
        0 < length a.children_headers
        → (m : ArrayMetaDataSlab X) × (merge a right ≡ ok m)
          × IsMeta m
          × (m.children_headers ≡ all)
          × (m.header.slab_id ≡ a.header.slab_id)
    unfolding merge add32 sub32
    merge_lem some_child =
        let base : last_sum a.children_count_sum ≡ some (counts a.children_headers) =
          ap last_sum ha.summed
          ∙ (last_sum-count_sums 0 a.children_headers (omega (arith, ha.few, ha.counted)) some_child
              ∙ ap some (omega arith)) in
        let sums =
          count_sums-both a.children_headers right.children_headers
            (omega (arith, ha.few, ha.counted)) in
        let total =
          sum_by-append (λ (g : ArraySlabHeader). g.count) a.children_headers
            right.children_headers in
        let number = length-append a.children_headers right.children_headers in
        rw (merge, base)
          (
            _,
            refl,
            record {
              sized = omega (arith, ha.sized, hr.sized, fits, number);
              counted = omega (arith, ha.counted, hr.counted, few, total);
              summed = rw (ha.summed) (sym sums);
              fits = omega (arith, ha.sized, hr.sized, fits);
              few = omega (arith, few);
            },
            refl,
            refl,
          )

    -- LendToRight between two inner nodes that satisfy the invariant, the left one with as many
    -- children as the right one or more, and with sizes below 2 ^ 30 and counts below 2 ^ 31
    -- together, does not panic: both keep their IDs and the invariant, and hold all children in
    -- order.
    pub lend_to_right_lem :
        length right.children_headers ≤ length a.children_headers
        → (l : ArrayMetaDataSlab X) × (r : ArrayMetaDataSlab X) × (lend_to_right a right
            ≡ ok (l, r))
          × Shares all a.header.slab_id right.header.slab_id l r
    unfolding lend_to_right add32 sub32 mul32
    lend_to_right_lem more =
        let n = (length a.children_headers + length right.children_headers) / 2 in
        let moved = drop n a.children_headers ++ right.children_headers in
        let calm : ltb (length a.children_headers) n ≡ false = ground arith in
        let long = length-take n a.children_headers (omega arith) in
        let short =
          length-append (drop n a.children_headers) right.children_headers
          ∙ ap (λ k. k + length right.children_headers) (length-drop n a.children_headers) in
        let parts = sum_by-take-drop (λ (g : ArraySlabHeader). g.count) n a.children_headers in
        let whole =
          sum_by-append (λ (g : ArraySlabHeader). g.count) (drop n a.children_headers)
            right.children_headers in
        let left_total : total_count 0 (take n a.children_headers)
            ≡ counts (take n a.children_headers) =
          total_count-counts _ (omega (arith, few, ha.counted, parts)) in
        let right_total : total_count 0 moved ≡ counts moved =
          total_count-counts moved (omega (arith, few, ha.counted, hr.counted, parts, whole)) in
        rw calm (
          _,
          _,
          refl,
          record {
            same =
                sym (
                  append_assoc (take n a.children_headers) (drop n a.children_headers)
                    right.children_headers)
                ∙ ap (λ hs. hs ++ right.children_headers) (take-append-drop n a.children_headers);
            left_meta = record {
              sized = omega (arith, fits, ha.sized, hr.sized, long);
              counted = left_total;
              summed = ap (take n) ha.summed ∙ take-count_sums 0 n a.children_headers;
              fits = omega (arith, fits, ha.sized, hr.sized);
              few = omega (arith, few, ha.counted, parts, left_total);
            };
            right_meta = record {
              sized = omega (arith, fits, ha.sized, hr.sized, short);
              counted = right_total;
              summed = refl;
              fits = omega (arith, fits, ha.sized, hr.sized, short);
              few = omega (arith, few, ha.counted, hr.counted, parts, whole, right_total);
            };
            left_id = refl;
            right_id = refl;
          },
        )

    -- BorrowFromRight between two inner nodes that satisfy the invariant, the right one with as
    -- many children as the left one or more, and with sizes below 2 ^ 30 and counts below 2 ^ 31
    -- together, does not panic: both keep their IDs and the invariant, and hold all children in
    -- order.
    pub borrow_from_right_lem :
        length a.children_headers ≤ length right.children_headers
        → (l : ArrayMetaDataSlab X) × (r : ArrayMetaDataSlab X) × (borrow_from_right a right
            ≡ ok (l, r))
          × Shares all a.header.slab_id right.header.slab_id l r
    unfolding borrow_from_right add32 sub32 mul32
    borrow_from_right_lem more =
        let n = (length a.children_headers + length right.children_headers) / 2 in
        let k = n - length a.children_headers in
        let moved = take k right.children_headers in
        let kept = drop k right.children_headers in
        let calm : ltb n (length a.children_headers) ≡ false = ground arith in
        let long =
          length-append a.children_headers moved
          ∙ ap (◌+◌ (length a.children_headers))
              (length-take k right.children_headers (omega arith)) in
        let short = length-drop k right.children_headers in
        let parts = sum_by-take-drop (λ (g : ArraySlabHeader). g.count) k right.children_headers in
        let whole = sum_by-append (λ (g : ArraySlabHeader). g.count) a.children_headers moved in
        let left_total : total_count a.header.count moved ≡ a.header.count + counts moved =
          total_count-eq-counts a.header.count moved (omega (arith, few, hr.counted, parts)) in
        let right_total : total_count 0 kept ≡ counts kept =
          total_count-counts kept (omega (arith, few, hr.counted, parts)) in
        rw calm (
          _,
          _,
          refl,
          record {
            same =
                append_assoc a.children_headers moved kept
                ∙ ap (◌++◌ a.children_headers) (take-append-drop k right.children_headers);
            left_meta = record {
              sized = omega (arith, fits, ha.sized, hr.sized, long);
              counted = omega (arith, left_total, whole, ha.counted);
              summed =
                  rw (ha.summed, ha.counted)
                    (sym (
                      count_sums-both a.children_headers moved
                        (omega (arith, ha.few, ha.counted))));
              fits = omega (arith, fits, ha.sized, hr.sized);
              few = omega (arith, few, hr.counted, parts, left_total);
            };
            right_meta = record {
              sized = omega (arith, fits, ha.sized, hr.sized, short);
              counted = right_total;
              summed = refl;
              fits = omega (arith, fits, ha.sized, hr.sized);
              few = omega (arith, few, hr.counted, parts, right_total);
            };
            left_id = refl;
            right_id = refl;
          },
        )
