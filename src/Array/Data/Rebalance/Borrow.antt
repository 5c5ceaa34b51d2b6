-- ===== src/Array/Data/Rebalance/Borrow.antt =====
-- BorrowFromRight of a leaf (array_data_slab.go): after CanLendToLeft of the right slab has said
-- yes, both slabs end within the thresholds.
use atree.Prelude.{
  ℕ, suc, ◌+◌, ◌-◌, ◌/◌, ◌%◌, ◌^◌, ◌≤◌, ◌<◌, ◌≡◌, refl, ◌∙◌, ap, true, false, List, [], ◌∷◌, ◌++◌,
  arith, ltb, leb, length, take, drop, sum_by, add32, sub32, u32_mod, add32_lem, sub32_lem,
  Bool-cases, inl, inr, ◌⊎◌, some, sum_by-append, length-append, take-append-drop, sum_by-take-drop,
  length-take,
}
use mathlib.Core.List.{append_assoc}
use atree.Settings.{Settings, IsSettings, array_data_slab_prefix_size}
use atree.Array.Slab.{ArrayDataSlab}
use atree.Array.Data.{is_full, is_underflow}
use atree.Array.Data.Shape.{AreSized, IsLeaf}
use atree.Array.Data.Thresholds.{is_underflow-missing, is_full-le}
use atree.Array.Data.Rebalance.Promise.{Rebalances, sharing-Rebalances, IsSharing}
use atree.Array.Data.Rebalance.Lendable.{IsLendable, IsLendable-le, can_lend_to_left-IsLendable}
use atree.Array.Data.Rebalance.{
  least_size, mid_of, can_lend_to_left, borrow_point, borrow_into, borrow_from_right,
}

module _ {E : Type 0} (byte_size : E → ℕ) where
  abbrev bytes : List E → ℕ
  bytes = sum_by byte_size

  -- Of the right slab's elements `es` the first `k` move to a left slab of `left` bytes and `count`
  -- elements: both slabs reach `least` bytes, and the left one has `most` at most.
  record IsBorrow (least most size left count : ℕ) (es : List E) (p : ℕ × ℕ) (k : ℕ) : Type 0 where
    inside : k ≤ length es
    size_left : p.0 ≡ left + bytes (take k es)
    count_left : p.1 ≡ count + k
    enough_left : least ≤ p.0
    enough_right : least ≤ size - p.0
    room_left : p.0 ≤ most

  -- The sizes while a right slab of `header_size` bytes lends to one that lacks `wanted` bytes.
  record IsBorrowing (least most limit size header_size wanted : ℕ) : Type 0 where
    total : size + wanted ≡ header_size + least
    lender : least + wanted ≤ header_size
    few_wanted : wanted ≤ least
    roomy : (size + 1) / 2 + limit ≤ most
    prefix : array_data_slab_prefix_size + 1 < least
    size_fits : size < 2 ^ 31

  module _ (least most limit size header_size wanted : ℕ)
      (fixed : IsBorrowing least most limit size header_size wanted) where
    borrow_point-IsBorrow :
        (lent left count : ℕ) (es : List E)
        → size ≡ left + array_data_slab_prefix_size + bytes es
        → header_size ≡ array_data_slab_prefix_size + lent + bytes es
        → count + length es < 2 ^ 31
        → left ≤ (size + 1) / 2
        → AreSized byte_size limit es
        → (wanted ≤ lent) ⊎ IsLendable byte_size least header_size wanted lent es
        → (k : ℕ) × IsBorrow least most size left count es
            (borrow_point byte_size least size ((size + 1) / 2) left count es)
            k
    unfolding borrow_point
    borrow_point-IsBorrow lent left count [] t h f m a o = absurd (omega arith)
    borrow_point-IsBorrow lent left count (e ∷ es) t h f m a o =
        let plus : add32 left (byte_size e) ≡ left + byte_size e = add32_lem _ _ (omega arith) in
        let more : add32 count 1 ≡ count + 1 = add32_lem _ _ (omega arith) in
        let given : sub32 size left ≡ size - left = sub32_lem _ _ (omega arith) (omega arith) in
        let kept : sub32 (size - left) (byte_size e) ≡ size - left - byte_size e =
          sub32_lem _ _ (omega arith) (omega arith) in
        rw (plus, more, given, kept)
          (elim (Bool-cases (ltb ((size + 1) / 2) (left + byte_size e))) [
            | inl over ↦ rw over (elim (Bool-cases (leb least (size - left - byte_size e))) [
              | inl fits ↦ rw fits (1, ground arith)
              | inr stays ↦ rw stays (0, ground arith)
            ])
            | inr under ↦ rw under (
                let (k, p) =
                  borrow_point-IsBorrow (lent + byte_size e) (left + byte_size e) (count + 1) es
                    (omega arith) (omega arith) (omega arith) (ground arith) a.2
                    (next_lendable o) in
                (suc k, omega arith))
          ])
      where
        next_lendable :
            (wanted ≤ lent) ⊎ IsLendable byte_size least header_size wanted lent (e ∷ es)
            → (wanted ≤ lent + byte_size e)
              ⊎ IsLendable byte_size least header_size wanted (lent + byte_size e) es
        next_lendable (inl h) = inl (omega arith)
        next_lendable (inr (h, rest)) = rest

  borrow_into-IsSharing :
      {X : Type 0} (c : Settings) (a right : ArrayDataSlab E X) (p : ℕ × ℕ) (k : ℕ)
      → IsSettings c
      → IsLeaf byte_size a
      → IsLeaf byte_size right
      → right.header.size ≤ c.max_threshold
      → IsBorrow c.min_threshold c.max_threshold
          (a.header.size + right.header.size)
          a.header.size
          a.header.count
          right.elements
          p
          k
      → IsSharing byte_size c a right (borrow_into p a right).0 (borrow_into p a right).1
  unfolding borrow_into add32 sub32
  borrow_into-IsSharing c a right (size, count) k set la lr ma d =
      let start : (count + u32_mod - a.header.count) % u32_mod ≡ k = omega arith in
      let parts = sum_by-take-drop byte_size k right.elements in
      let taken = length-take k right.elements d.inside in
      rw start (record {
        parts =
            append_assoc a.elements (take k right.elements) (drop k right.elements)
            ∙ ap (λ xs. a.elements ++ xs) (take-append-drop k right.elements);
        size_left = omega (arith, sum_by-append byte_size a.elements (take k right.elements));
        count_left = omega (arith, length-append a.elements (take k right.elements));
        size_right = omega arith;
        count_right = omega arith;
        least_left = d.enough_left;
        most_left = d.room_left;
        least_right = omega arith;
        most_right = omega arith;
        left_id = refl;
        right_id = refl;
        left_next = refl;
        right_next = refl;
      })

  -- If the left leaf lacks `wanted` bytes and the right one, which is not full, can lend them, then
  -- BorrowFromRight keeps all elements in order, with right headers, and leaves both leaves neither
  -- full nor short of bytes.
  pub borrow_from_right-Rebalances :
      {X : Type 0} (c : Settings) (a right : ArrayDataSlab E X) (wanted : ℕ)
      → IsSettings c
      → IsLeaf byte_size a
      → IsLeaf byte_size right
      → AreSized byte_size c.max_inline_array_element_size a.elements
      → AreSized byte_size c.max_inline_array_element_size right.elements
      → is_full c right ≡ false
      → is_underflow c a ≡ some wanted
      → can_lend_to_left byte_size c right wanted ≡ true
      → Rebalances byte_size c a right
          (borrow_from_right byte_size c a right).0
          (borrow_from_right byte_size c a right).1
  unfolding borrow_from_right mid_of least_size
  borrow_from_right-Rebalances c a right wanted set la lr sa sr full under can =
      let (short, missing) = is_underflow-missing c a set wanted under in
      let size : add32 a.header.size right.header.size ≡ a.header.size + right.header.size =
        add32_lem _ _ (omega arith) in
      let mid : add32 (a.header.size + right.header.size) 1
          ≡ a.header.size + right.header.size + 1 =
        add32_lem _ _ (omega arith) in
      let least : c.min_threshold % u32_mod ≡ c.min_threshold = omega arith in
      let lendable = can_lend_to_left-IsLendable byte_size c set right lr wanted can in
      let lender =
        IsLendable-le byte_size c.min_threshold right.header.size wanted 0 right.elements
          lendable in
      let room = is_full-le c right set full in
      let (k, d) =
        borrow_point-IsBorrow c.min_threshold c.max_threshold c.max_inline_array_element_size
          (a.header.size + right.header.size) right.header.size wanted (omega arith) 0 a.header.size
          a.header.count right.elements (omega arith) (omega arith) (omega arith) (omega arith) sr
          (inr lendable) in
      rw (size, mid, least)
        (sharing-Rebalances byte_size c a right _ _ c.max_inline_array_element_size set la lr sa sr
          (borrow_into-IsSharing c a right _ k set la lr room d))
