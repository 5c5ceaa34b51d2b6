-- ===== src/Array/Data/Rebalance/Promise.antt =====
-- What moving elements between two neighbouring leaves promises (array_data_slab.go).
use atree.Prelude.{
  ℕ, ◌+◌, ◌-◌, ◌≤◌, ◌≡◌, ◌++◌, none, false, ap, length, length-append, sum_by, sum_by-append, arith,
}
use atree.Settings.{Settings, IsSettings, array_data_slab_prefix_size}
use atree.Array.Slab.{ArrayDataSlab}
use atree.Array.Data.{is_full, is_underflow}
use atree.Array.Data.Shape.{
  AreSized, AreSized-append, AreSized-left, AreSized-right, sum_by-pos, IsLeaf,
}
use atree.Array.Data.Thresholds.{in_range}

-- `l` and `r` hold the elements of `a` and `right` in order, have right headers under the IDs and
-- in the chain of `a` and `right`, and are neither full nor short of bytes.
pub record Rebalances {E X : Type 0} (byte_size : E → ℕ) (c : Settings)
    (a right l r : ArrayDataSlab E X) : Type 0 where
  pub same : l.elements ++ r.elements ≡ a.elements ++ right.elements
  pub left_leaf : IsLeaf byte_size l
  pub right_leaf : IsLeaf byte_size r
  pub left_id : l.header.slab_id ≡ a.header.slab_id
  pub right_id : r.header.slab_id ≡ right.header.slab_id
  pub left_next : l.next ≡ a.next
  pub right_next : r.next ≡ right.next
  pub left_range : (is_full c l ≡ false) × (is_underflow c l ≡ none)
  pub right_range : (is_full c r ≡ false) × (is_underflow c r ≡ none)

-- The headers of two slabs that share out the elements of `a` and `right`.
pub record IsSharing {E X : Type 0} (byte_size : E → ℕ) (c : Settings)
    (a right l r : ArrayDataSlab E X) : Type 0 where
  pub parts : l.elements ++ r.elements ≡ a.elements ++ right.elements
  pub size_left : l.header.size ≡ array_data_slab_prefix_size + sum_by byte_size l.elements
  pub count_left : l.header.count ≡ length l.elements
  pub size_right : r.header.size ≡ a.header.size + right.header.size - l.header.size
  pub count_right : r.header.count ≡ a.header.count + right.header.count - l.header.count
  pub least_left : c.min_threshold ≤ l.header.size
  pub most_left : l.header.size ≤ c.max_threshold
  pub least_right : c.min_threshold ≤ r.header.size
  pub most_right : r.header.size ≤ c.max_threshold
  pub left_id : l.header.slab_id ≡ a.header.slab_id
  pub right_id : r.header.slab_id ≡ right.header.slab_id
  pub left_next : l.next ≡ a.next
  pub right_next : r.next ≡ right.next

pub sharing-Rebalances :
    {E X : Type 0} (byte_size : E → ℕ) (c : Settings) (a right l r : ArrayDataSlab E X) (limit : ℕ)
    → IsSettings c
    → IsLeaf byte_size a
    → IsLeaf byte_size right
    → AreSized byte_size limit a.elements
    → AreSized byte_size limit right.elements
    → IsSharing byte_size c a right l r
    → Rebalances byte_size c a right l r
sharing-Rebalances byte_size c a right l r limit set la lr sa sr h =
    let all : AreSized byte_size limit (l.elements ++ r.elements) =
      rw h.parts (AreSized-append byte_size limit a.elements right.elements sa sr) in
    let few_left =
      sum_by-pos byte_size limit l.elements
        (AreSized-left byte_size limit l.elements r.elements all) in
    let few_right =
      sum_by-pos byte_size limit r.elements
        (AreSized-right byte_size limit l.elements r.elements all) in
    let sizes : sum_by byte_size l.elements + sum_by byte_size r.elements
        ≡ sum_by byte_size a.elements + sum_by byte_size right.elements =
      omega (
        arith,
        ap (sum_by byte_size) h.parts,
        sum_by-append byte_size l.elements r.elements,
        sum_by-append byte_size a.elements right.elements,
      ) in
    let lengths : length l.elements + length r.elements
        ≡ length a.elements + length right.elements =
      omega (
        arith,
        ap length h.parts,
        length-append l.elements r.elements,
        length-append a.elements right.elements,
      ) in
    record {
      same = h.parts;
      left_leaf = omega arith;
      right_leaf = omega arith;
      left_id = h.left_id;
      right_id = h.right_id;
      left_next = h.left_next;
      right_next = h.right_next;
      left_range = in_range c l set h.least_left h.most_left;
      right_range = in_range c r set h.least_right h.most_right;
    }
