-- ===== src/Array/Data/Rebalance/Lend.antt =====
-- LendToRight of a leaf (array_data_slab.go): after CanLendToRight has said yes, both slabs end
-- within the thresholds.
use atree.Prelude.{
  ℕ, ◌+◌, ◌-◌, ◌/◌, ◌%◌, ◌^◌, ◌≤◌, ◌<◌, ◌≡◌, refl, ◌∙◌, ap, sym, true, false, ◌&&◌, List, [], ◌∷◌,
  ◌++◌, arith, ltb, leb, length, take, drop, sum_by, add32, sub32, u32_mod, add32_lem, sub32_lem,
  Bool-cases, inl, inr, ◌⊎◌, reverse, some, sum_by-append, length-append, take-append,
  take-append-drop,
}
use mathlib.Core.List.{reverse-append, reverse-reverse, append_assoc}
use atree.Settings.{Settings, IsSettings, array_data_slab_prefix_size}
use atree.Array.Slab.{ArrayDataSlab}
use atree.Array.Data.{is_full, is_underflow}
use atree.Array.Data.Shape.{AreSized, IsLeaf}
use atree.Array.Data.Thresholds.{is_underflow-missing, is_full-le}
use atree.Array.Data.Rebalance.Promise.{Rebalances, sharing-Rebalances, IsSharing}
use atree.Array.Data.Rebalance.Lendable.{
  IsLendable, IsLendable-le, can_lend_to_right-IsLendable, bytes-reverse, length-reverse,
  AreSized-reverse,
}
use atree.Array.Data.Rebalance.{
  least_size, mid_of, can_lend_to_right, lend_point, lend_into, lend_to_right,
}

module _ {E : Type 0} (byte_size : E → ℕ) where
  abbrev bytes : List E → ℕ
  bytes = sum_by byte_size

  -- The left slab keeps `kept` of the elements `es`, from its last to its first, and `gone` have
  -- moved to the right: both slabs reach `least` bytes, and the right one has `most` at most.
  record IsLend (least most size : ℕ) (es : List E) (p : ℕ × ℕ) (gone kept : List E) : Type 0 where
    parts : es ≡ gone ++ kept
    size_left : p.0 ≡ array_data_slab_prefix_size + bytes kept
    count_left : p.1 ≡ length kept
    enough_left : least ≤ p.0
    enough_right : least ≤ size - p.0
    room_right : size - p.0 ≤ most

  -- The sizes while a slab of `header_size` bytes lends to one that lacks `wanted` bytes.
  record IsLending (least most limit size header_size wanted : ℕ) : Type 0 where
    total : size + wanted ≡ header_size + least
    lender : least + wanted ≤ header_size
    few_wanted : wanted ≤ least
    balanced : size ≤ (size + 1) / 2 + most
    roomy : least + limit ≤ most
    prefix : array_data_slab_prefix_size < least
    header_fits : header_size < 2 ^ 30
    size_fits : size < 2 ^ 31

  module _ (least most limit size header_size wanted : ℕ)
      (fixed : IsLending least most limit size header_size wanted) where
    lend_point-IsLend :
        (lent left count : ℕ) (es : List E)
        → left ≡ array_data_slab_prefix_size + bytes es
        → count ≡ length es
        → count < 2 ^ 30
        → header_size ≡ left + lent
        → least ≤ left
        → size - left ≤ most
        → AreSized byte_size limit es
        → (wanted ≤ lent) ⊎ IsLendable byte_size least header_size wanted lent es
        → (gone kept : List E) × IsLend least most size es
            (lend_point byte_size least size ((size + 1) / 2) left count es)
            gone
            kept
    unfolding lend_point
    lend_point-IsLend lent left count [] l n f h q r a o = absurd (omega arith)
    lend_point-IsLend lent left count (e ∷ es) l n f h q r a o =
        let keep : sub32 left (byte_size e) ≡ left - byte_size e =
          sub32_lem _ _ (omega arith) (omega arith) in
        let given : sub32 size left ≡ size - left = sub32_lem _ _ (omega arith) (omega arith) in
        let fewer : sub32 count 1 ≡ count - 1 = sub32_lem _ _ (omega arith) (omega arith) in
        rw (keep, given, fewer)
          (elim (Bool-cases
            (ltb (left - byte_size e) ((size + 1) / 2) && leb least (size - left))) [
              | inl stop ↦ rw stop ([], e ∷ es, ground arith)
              | inr go ↦ rw go (
                  let (gone, kept, p) =
                    lend_point-IsLend (lent + byte_size e) (left - byte_size e) (count - 1) es
                      (omega arith) (omega arith) (omega arith) (omega arith) (ground arith)
                      (ground arith) a.2 (next_lendable o) in
                  (
                    e ∷ gone,
                    kept,
                    record {
                      parts = ap (◌∷◌ e) p.parts;
                      size_left = p.size_left;
                      count_left = p.count_left;
                      enough_left = p.enough_left;
                      enough_right = p.enough_right;
                      room_right = p.room_right;
                    },
                  ))
            ])
      where
        next_lendable :
            (wanted ≤ lent) ⊎ IsLendable byte_size least header_size wanted lent (e ∷ es)
            → (wanted ≤ lent + byte_size e)
              ⊎ IsLendable byte_size least header_size wanted (lent + byte_size e) es
        next_lendable (inl h) = inl (omega arith)
        next_lendable (inr (h, rest)) = rest

  lend_into-IsSharing :
      {X : Type 0} (c : Settings) (a right : ArrayDataSlab E X) (p : ℕ × ℕ) (gone kept : List E)
      → IsSettings c
      → IsLeaf byte_size a
      → IsLeaf byte_size right
      → a.header.size ≤ c.max_threshold
      → IsLend c.min_threshold c.max_threshold
          (a.header.size + right.header.size)
          (reverse a.elements)
          p
          gone
          kept
      → IsSharing byte_size c a right (lend_into p a right).0 (lend_into p a right).1
  unfolding lend_into add32 sub32
  lend_into-IsSharing c a right (size, count) gone kept set la lr ma d =
      let whole : a.elements ≡ reverse kept ++ reverse gone =
        sym (reverse-reverse a.elements) ∙ ap reverse d.parts ∙ reverse-append gone kept in
      let kept_length = length-reverse byte_size kept in
      let taken : take count a.elements ≡ reverse kept =
        rw (d.count_left, ← kept_length, whole) (take-append (reverse kept) (reverse gone)) in
      let kept_bytes = bytes-reverse byte_size kept in
      let split : bytes a.elements ≡ bytes (reverse kept) + bytes (reverse gone) =
        ap bytes whole ∙ sum_by-append byte_size (reverse kept) (reverse gone) in
      let lengths : length a.elements ≡ length (reverse kept) + length (reverse gone) =
        ap length whole ∙ length-append (reverse kept) (reverse gone) in
      record {
        parts =
            sym (append_assoc (take count a.elements) (drop count a.elements) right.elements)
            ∙ ap (λ xs. xs ++ right.elements) (take-append-drop count a.elements);
        size_left = rw taken (omega arith);
        count_left = rw taken (omega arith);
        size_right = omega arith;
        count_right = omega arith;
        least_left = d.enough_left;
        most_left = omega arith;
        least_right = omega arith;
        most_right = omega arith;
        left_id = refl;
        right_id = refl;
        left_next = refl;
        right_next = refl;
      }

  -- If the right leaf lacks `wanted` bytes and the left one, which is not full, can lend them, then
  -- LendToRight keeps all elements in order, with right headers, and leaves both leaves neither
  -- full nor short of bytes.
  pub lend_to_right-Rebalances :
      {X : Type 0} (c : Settings) (a right : ArrayDataSlab E X) (wanted : ℕ)
      → IsSettings c
      → IsLeaf byte_size a
      → IsLeaf byte_size right
      → AreSized byte_size c.max_inline_array_element_size a.elements
      → AreSized byte_size c.max_inline_array_element_size right.elements
      → is_full c a ≡ false
      → is_underflow c right ≡ some wanted
      → can_lend_to_right byte_size c a wanted ≡ true
      → Rebalances byte_size c a right
          (lend_to_right byte_size c a right).0
          (lend_to_right byte_size c a right).1
  unfolding lend_to_right mid_of least_size
  lend_to_right-Rebalances c a right wanted set la lr sa sr full under can =
      let (short, missing) = is_underflow-missing c right set wanted under in
      let size : add32 a.header.size right.header.size ≡ a.header.size + right.header.size =
        add32_lem _ _ (omega arith) in
      let mid : add32 (a.header.size + right.header.size) 1
          ≡ a.header.size + right.header.size + 1 =
        add32_lem _ _ (omega arith) in
      let least : c.min_threshold % u32_mod ≡ c.min_threshold = omega arith in
      let lendable = can_lend_to_right-IsLendable byte_size c set a la wanted can in
      let lender =
        IsLendable-le byte_size c.min_threshold a.header.size wanted 0 (reverse a.elements)
          lendable in
      let room = is_full-le c a set full in
      let (gone, kept, d) =
        lend_point-IsLend c.min_threshold c.max_threshold c.max_inline_array_element_size
          (a.header.size + right.header.size) a.header.size wanted (omega arith) 0 a.header.size
          a.header.count (reverse a.elements) (omega (arith, bytes-reverse byte_size a.elements))
          (omega (arith, length-reverse byte_size a.elements)) la.few (omega arith) (omega arith)
          (omega arith) (AreSized-reverse byte_size _ a.elements sa) (inr lendable) in
      rw (size, mid, least)
        (sharing-Rebalances byte_size c a right _ _ c.max_inline_array_element_size set la lr sa sr
          (lend_into-IsSharing c a right _ gone kept set la lr room d))
