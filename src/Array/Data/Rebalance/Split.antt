-- ===== src/Array/Data/Rebalance/Split.antt =====
-- Split of a leaf (array_data_slab.go): nothing is lost, and the halves are balanced.
use atree.Prelude.{
  ℕ, suc, ◌+◌, ◌-◌, ◌*◌, ◌/◌, ◌^◌, ◌≤◌, ◌<◌, ◌≡◌, refl, ◌∙◌, ap, true, false, List, [], ◌∷◌, ◌++◌,
  arith, leb, length, take, drop, sum_by, add32, sub32, add32_lem, sub32_lem, Bool-cases, inl, inr,
  ◌⊎◌, take-append-drop, sum_by-take-drop, sum_by-append, none, length-take, length-drop,
}
use atree.Ids.{SlabId}
use atree.Settings.{Settings, IsSettings, array_data_slab_prefix_size}
use atree.Array.Slab.{ArrayDataSlab}
use atree.Array.Data.Shape.{AreSized, sum_by-pos, IsLeaf}
use atree.Array.Data.{is_full, is_underflow}
use atree.Array.Data.Thresholds.{is_full-lt, in_range}
use atree.Array.Data.Rebalance.{split_point, split_into, split_of, mid_of}

module _ {E : Type 0} (byte_size : E → ℕ) where
  abbrev pub bytes : List E → ℕ
  bytes = sum_by byte_size

  -- A split of `es`, behind `i` elements of `left` bytes, in a slab of `total` bytes with no element
  -- over `limit`: the left slab gets `k` of `es`, both slabs get something, and they differ by
  -- `limit` bytes at most.
  pub record IsSplit (total limit i left : ℕ) (es : List E) (p : ℕ × ℕ) (k : ℕ) : Type 0 where
    pub size : p.0 ≡ left + bytes (take k es)
    pub count : p.1 ≡ i + k
    pub inside : k ≤ length es
    pub left_some : 0 < p.0
    pub right_some : p.0 < total
    pub left_small : 2 * p.0 ≤ total + limit
    pub right_small : total ≤ 2 * p.0 + limit

  pub split_point-IsSplit :
      (total mid limit i left : ℕ) (es : List E)
      → total ≡ left + bytes es
      → mid ≡ (total + 1) / 2
      → left < mid
      → total < 2 ^ 30
      → AreSized byte_size limit es
      → (0 < left) ⊎ (2 ≤ length es)
      → (k : ℕ) × IsSplit total limit i left es (split_point byte_size total mid i left es) k
  unfolding split_point
  split_point-IsSplit total mid limit i left [] t m l b s o = absurd (omega arith)
  split_point-IsSplit total mid limit i left (e ∷ es) t m l b s o =
      let plus : add32 left (byte_size e) ≡ left + byte_size e = add32_lem _ _ (omega arith) in
      let minus : sub32 (sub32 total left) (byte_size e) ≡ total - left - byte_size e = omega (
        arith,
        sub32_lem total left (omega arith) (omega arith),
        sub32_lem (total - left) (byte_size e) (omega arith) (omega arith),
        ap (λ x. sub32 x (byte_size e)) (sub32_lem total left (omega arith) (omega arith)),
      ) in
      rw (plus, minus)
        (elim (Bool-cases (leb mid (left + byte_size e))) [
          | inl reached ↦ rw reached (elim (Bool-cases (leb left (total - left - byte_size e))) [
            | inl small ↦ rw small (1, ground (arith, sum_by-pos byte_size limit es))
            | inr large ↦ rw large (0, ground arith)
          ])
          | inr before ↦ rw before (
              let (k, p) =
                split_point-IsSplit total mid limit (i + 1) (left + byte_size e) es (omega arith) m
                  (ground arith) b s.2 (inl (omega arith)) in
              (suc k, omega arith))
        ])

  -- What Split promises of the two slabs.
  pub record Splits {X : Type 0} (limit : ℕ) (id : SlabId) (a l r : ArrayDataSlab E X)
      : Type 0 where
    pub same : l.elements ++ r.elements ≡ a.elements
    pub left_leaf : IsLeaf byte_size l
    pub right_leaf : IsLeaf byte_size r
    pub left_some : 0 < length l.elements
    pub right_some : 0 < length r.elements
    pub left_id : l.header.slab_id ≡ a.header.slab_id
    pub right_id : r.header.slab_id ≡ id
    pub left_next : l.next ≡ id
    pub right_next : r.next ≡ a.next
    pub left_small : l.header.size ≤ r.header.size + limit
    pub right_small : r.header.size ≤ l.header.size + limit

  pub bytes-pos : (es : List E) → 0 < bytes es → 0 < length es
  bytes-pos [] h = h
  bytes-pos (e ∷ es) h = omega arith

  split_into-Splits :
      {X : Type 0} (limit : ℕ) (id : SlabId) (a : ArrayDataSlab E X) (p : ℕ × ℕ) (k : ℕ)
      → IsLeaf byte_size a
      → IsSplit (bytes a.elements) limit 0 0 a.elements p k
      → Splits limit id a (split_into id p a).0 (split_into id p a).1
  unfolding split_into add32 sub32
  split_into-Splits limit id a (size, count) k leaf split =
      let total = sum_by-take-drop byte_size k a.elements in
      let l = length-take k a.elements split.inside in
      let r = length-drop k a.elements in
      let e : count ≡ k = split.count ∙ omega arith in
      rw e (record {
        same = take-append-drop k a.elements;
        left_leaf = omega (arith, l);
        right_leaf = omega (arith, r, total);
        left_some = bytes-pos (take k a.elements) (omega arith);
        right_some = bytes-pos (drop k a.elements) (omega (arith, total));
        left_id = refl;
        right_id = refl;
        left_next = refl;
        right_next = refl;
        left_small = omega (arith, total);
        right_small = omega (arith, total);
      })

  -- Split of a leaf of two or more elements, each of one byte or more and of `limit` bytes at most:
  -- the two slabs hold the elements in order, neither is empty, both have right headers and stand
  -- in the chain of leaves, and their sizes differ by `limit` at most.
  pub split_of-Splits :
      {X : Type 0} (limit : ℕ) (id : SlabId) (a : ArrayDataSlab E X)
      → IsLeaf byte_size a
      → AreSized byte_size limit a.elements
      → 2 ≤ length a.elements
      → Splits limit id a (split_of byte_size id a).0 (split_of byte_size id a).1
  unfolding split_of mid_of
  split_of-Splits limit id a leaf sized two =
      let total : sub32 a.header.size array_data_slab_prefix_size ≡ bytes a.elements =
        sub32_lem _ _ (omega arith) (omega arith) ∙ omega arith in
      let mid : add32 (bytes a.elements) 1 ≡ bytes a.elements + 1 = add32_lem _ _ (omega arith) in
      let (k, split) =
        split_point-IsSplit (bytes a.elements) ((bytes a.elements + 1) / 2) limit 0 0 a.elements
          (omega arith) refl (omega (arith, sum_by-pos byte_size limit a.elements sized))
          (omega arith) sized (inr two) in
      rw (total, mid) (split_into-Splits limit id a _ k leaf split)

  -- The same where a root that has become a leaf below a root gets the longer prefix.
  pub split_of-within :
      {X : Type 0} (c : Settings) (id : SlabId) (a : ArrayDataSlab E X)
      → IsSettings c
      → IsLeaf byte_size a
      → AreSized byte_size c.max_inline_array_element_size a.elements
      → 2 ≤ length a.elements
      → is_full c a ≡ true
      → a.header.size ≤ c.max_threshold + c.max_inline_array_element_size + 16
      → ((is_full c (split_of byte_size id a).0 ≡ false)
          × (is_underflow c (split_of byte_size id a).0 ≡ none))
        × ((is_full c (split_of byte_size id a).1 ≡ false)
            × (is_underflow c (split_of byte_size id a).1 ≡ none))
  split_of-within c id a set leaf sized two full room =
      let p = split_of-Splits c.max_inline_array_element_size id a leaf sized two in
      let l = (split_of byte_size id a).0 in
      let r = (split_of byte_size id a).1 in
      let over = is_full-lt c a set full in
      let sum : l.header.size + r.header.size ≡ a.header.size + array_data_slab_prefix_size =
        omega (
          arith,
          sum_by-append byte_size l.elements r.elements,
          ap bytes p.same,
          p.left_leaf.sized,
          p.right_leaf.sized,
        ) in
      (
        in_range c l set (omega (arith, p.right_small, p.left_small))
            (omega (arith, p.right_small, p.left_small)),
        in_range c r set (omega (arith, p.right_small, p.left_small))
            (omega (arith, p.right_small, p.left_small)),
      )

  -- Where Split is called on a full leaf that one element of legal size has made full, neither half
  -- is full or lacks bytes.
  pub split_of-InRange :
      {X : Type 0} (c : Settings) (id : SlabId) (a : ArrayDataSlab E X)
      → IsSettings c
      → IsLeaf byte_size a
      → AreSized byte_size c.max_inline_array_element_size a.elements
      → 2 ≤ length a.elements
      → is_full c a ≡ true
      → a.header.size ≤ c.max_threshold + c.max_inline_array_element_size
      → ((is_full c (split_of byte_size id a).0 ≡ false)
          × (is_underflow c (split_of byte_size id a).0 ≡ none))
        × ((is_full c (split_of byte_size id a).1 ≡ false)
            × (is_underflow c (split_of byte_size id a).1 ≡ none))
  split_of-InRange c id a set leaf sized two full room =
      split_of-within c id a set leaf sized two full (omega arith)
