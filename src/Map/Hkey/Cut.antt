-- ===== src/Map/Hkey/Cut.antt =====
-- Split and Merge of hkeyElements (map_elements_hashkey.go): nothing is lost, the parts are
-- balanced, and Merge undoes Split.
use atree.Prelude.{
  ℕ, ◌+◌, ◌-◌, ◌/◌, ◌≤◌, ◌<◌, ◌≡◌, ◌∙◌, refl, inr, ◌++◌, length, take, drop, arith, add32, sub32,
  add32_lem, sub32_lem, length-take, length-drop, sum_by-take-drop, take-append-drop,
}
use atree.Settings.{hkey_elements_prefix_size}
use atree.Array.Data.Shape.{AreSized, sum_by-pos}
use atree.Array.Data.Rebalance.{mid_of}
use atree.Array.Data.Rebalance.Split.{IsSplit, split_point-IsSplit, bytes-pos}
use atree.Map.Slab.{HkeyElements}
use atree.Map.Hkey.{sized}
use atree.Map.Hkey.Slabs.{cut_at, split_elements, merge_elements}
use atree.Map.Hkey.Shape.{AreSorted-take, AreSorted-drop, sized_bytes, IsHkeyElements}

module _ {T : Type 0} (elem_size : T → ℕ) where
  -- What Split promises of the two parts.
  pub record Cuts (limit : ℕ) (e l r : HkeyElements T) : Type 0 where
    pub hkeys : l.hkeys ++ r.hkeys ≡ e.hkeys
    pub elems : l.elems ++ r.elems ≡ e.elems
    pub left_shape : IsHkeyElements elem_size l
    pub right_shape : IsHkeyElements elem_size r
    pub left_some : 0 < length l.elems
    pub right_some : 0 < length r.elems
    pub left_level : l.level ≡ e.level
    pub right_level : r.level ≡ e.level
    pub left_small : l.size ≤ r.size + limit
    pub right_small : r.size ≤ l.size + limit
    pub sizes : l.size + r.size ≡ e.size + hkey_elements_prefix_size

  cut_at-Cuts :
      (limit : ℕ) (e : HkeyElements T) (p : ℕ × ℕ) (k : ℕ)
      → IsHkeyElements elem_size e
      → IsSplit (sized elem_size) (sized_bytes elem_size e.elems) limit 0 0 e.elems p k
      → Cuts limit e
          (cut_at (sized_bytes elem_size e.elems) p e).0
          (cut_at (sized_bytes elem_size e.elems) p e).1
  unfolding cut_at
  cut_at-Cuts limit e (size, count) k shape split =
      let total = sum_by-take-drop (sized elem_size) k e.elems in
      let left : add32 hkey_elements_prefix_size size ≡ hkey_elements_prefix_size + size =
        add32_lem _ _ (omega (arith, shape.counted, shape.fits, split.right_some)) in
      let rest : sub32 (sized_bytes elem_size e.elems) size ≡ sized_bytes elem_size e.elems - size =
        sub32_lem _ _ (omega (arith, split.right_some))
          (omega (arith, shape.counted, shape.fits)) in
      let right : add32 (sized_bytes elem_size e.elems - size) hkey_elements_prefix_size
          ≡ sized_bytes elem_size e.elems - size + hkey_elements_prefix_size =
        add32_lem _ _ (omega (arith, shape.counted, shape.fits)) in
      let same : count ≡ k = split.count ∙ omega arith in
      let keys_left = length-take k e.hkeys (omega (arith, shape.paired, split.inside)) in
      rw (same, left, rest, right)
        (record {
          hkeys = take-append-drop k e.hkeys;
          elems = take-append-drop k e.elems;
          left_shape = record {
            sorted = AreSorted-take k e.hkeys shape.sorted;
            paired = omega (arith, keys_left, length-take k e.elems split.inside);
            counted = omega (arith, split.size);
            fits = omega (arith, shape.counted, shape.fits, split.right_some);
          };
          right_shape = record {
            sorted = AreSorted-drop k e.hkeys shape.sorted;
            paired = omega (arith, length-drop k e.hkeys, length-drop k e.elems, shape.paired);
            counted = omega (arith, split.size, total);
            fits = omega (arith, shape.counted, shape.fits);
          };
          left_some =
              bytes-pos (sized elem_size) (take k e.elems)
                (omega (arith, split.size, split.left_some));
          right_some =
              bytes-pos (sized elem_size) (drop k e.elems)
                (omega (arith, split.size, split.right_some, total));
          left_level = refl;
          right_level = refl;
          left_small = omega (arith, split.left_small, split.right_some);
          right_small = omega (arith, split.right_small, split.right_some);
          sizes = omega (arith, shape.counted, split.right_some);
        })

  -- Split of two elements or more, each of one byte or more with its digest and of `limit` bytes at
  -- most: the parts hold the digests and the elements in order, both satisfy the invariant at the
  -- same level, neither is empty, and their sizes differ by `limit` at most.
  pub split_elements-Cuts :
      (limit : ℕ) (e : HkeyElements T)
      → IsHkeyElements elem_size e
      → AreSized (sized elem_size) limit e.elems
      → 2 ≤ length e.elems
      → Cuts limit e (split_elements elem_size e).0 (split_elements elem_size e).1
  unfolding split_elements mid_of
  split_elements-Cuts limit e shape each two =
      let bytes = sized_bytes elem_size e.elems in
      let body : sub32 e.size hkey_elements_prefix_size ≡ bytes =
        sub32_lem _ _ (omega (arith, shape.counted)) (omega (arith, shape.fits))
        ∙ omega (arith, shape.counted) in
      let mid : add32 bytes 1 ≡ bytes + 1 =
        add32_lem _ _ (omega (arith, shape.counted, shape.fits)) in
      let (k, split) =
        split_point-IsSplit (sized elem_size) bytes ((bytes + 1) / 2) limit 0 0 e.elems
          (omega arith) refl (omega (arith, sum_by-pos (sized elem_size) limit e.elems each, two))
          (omega (arith, shape.counted, shape.fits)) each (inr two) in
      rw (body, mid) (cut_at-Cuts limit e _ k shape split)

  ext :
      (e f : HkeyElements T)
      → e.hkeys ≡ f.hkeys
      → e.elems ≡ f.elems
      → e.size ≡ f.size
      → e.level ≡ f.level
      → e ≡ f
  ext e f p q r s = cc

  -- Merge undoes Split: on two elements or more, each of one byte or more with its digest and of
  -- `limit` bytes at most, merging the parts gives the elements that were split.
  pub merge_elements-split_elements :
      (limit : ℕ) (e : HkeyElements T)
      → IsHkeyElements elem_size e
      → AreSized (sized elem_size) limit e.elems
      → 2 ≤ length e.elems
      → merge_elements (split_elements elem_size e).0 (split_elements elem_size e).1 ≡ e
  unfolding merge_elements
  merge_elements-split_elements limit e shape each two =
      let cuts = split_elements-Cuts limit e shape each two in
      let l = (split_elements elem_size e).0 in
      let r = (split_elements elem_size e).1 in
      let body : sub32 r.size hkey_elements_prefix_size ≡ r.size - hkey_elements_prefix_size =
        sub32_lem _ _ (omega (arith, cuts.right_shape.counted))
          (omega (arith, cuts.right_shape.fits)) in
      let sum : add32 l.size (r.size - hkey_elements_prefix_size)
          ≡ l.size + (r.size - hkey_elements_prefix_size) =
        add32_lem _ _ (omega (arith, cuts.right_shape.fits, cuts.left_shape.fits)) in
      ext _ e cuts.hkeys cuts.elems
        (rw (body, sum) (omega (arith, cuts.sizes, cuts.right_shape.counted))) cuts.left_level
