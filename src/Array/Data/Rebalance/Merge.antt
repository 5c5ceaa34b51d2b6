-- ===== src/Array/Data/Rebalance/Merge.antt =====
-- Merge of two leaves (array_data_slab.go), after the one that could lend has refused.
use atree.Prelude.{
  ℕ, ◌+◌, ◌-◌, ◌%◌, ◌^◌, ◌≤◌, ◌<◌, ◌≡◌, refl, false, List, [], ◌∷◌, ◌++◌, arith, ltb, leb, length,
  sum_by, add32, sub32, u32_mod, add32_lem, sub32_lem, Bool-cases, inl, inr, none, some,
  sum_by-append, length-append, reverse, if◌then◌else◌,
}
use atree.Settings.{Settings, IsSettings, array_data_slab_prefix_size}
use atree.Array.Slab.{ArrayDataSlab}
use atree.Array.Data.{is_full, is_underflow}
use atree.Array.Data.Shape.{AreSized, IsLeaf, sum_by-pos}
use atree.Array.Data.Thresholds.{is_underflow-missing, is_full-le, is_underflow-le, in_range}
use atree.Array.Data.Rebalance.Lendable.{bytes-reverse, AreSized-reverse}
use atree.Array.Data.Rebalance.{
  least_size, can_lend_loop, can_lend_to_left, can_lend_to_right, merge,
}

module _ {E : Type 0} (byte_size : E → ℕ) where
  abbrev bytes : List E → ℕ
  bytes = sum_by byte_size

  -- A slab that cannot lend `wanted` bytes is small.
  refused-lt :
      (least header_size wanted lent limit : ℕ) (es : List E)
      → header_size ≡ array_data_slab_prefix_size + lent + bytes es
      → header_size < 2 ^ 30
      → array_data_slab_prefix_size < least
      → lent ≤ wanted
      → AreSized byte_size limit es
      → can_lend_loop byte_size least header_size wanted lent es ≡ false
      → header_size < least + wanted + limit
  unfolding can_lend_loop
  refused-lt least hs wanted lent limit [] e b p l a h = omega arith
  refused-lt least hs wanted lent limit (x ∷ es) e b p l a h =
      let plus : add32 lent (byte_size x) ≡ lent + byte_size x = add32_lem _ _ (omega arith) in
      let minus : sub32 hs (lent + byte_size x) ≡ hs - (lent + byte_size x) =
        sub32_lem _ _ (omega arith) (omega arith) in
      let h' = rw (plus, minus) at h in
      elim (Bool-cases (ltb (hs - (lent + byte_size x)) least)) [
        | inl short ↦ ground arith
        | inr enough ↦ elim (Bool-cases (leb wanted (lent + byte_size x))) [
          | inl lends ↦ absurd (ground (arith, h', enough, lends))
          | inr more ↦
              refused-lt least hs wanted (lent + byte_size x) limit es (omega arith) b p
                (ground arith) a.2 (ground (arith, h', enough, more))
        ]
      ]

  small-lt :
      (limit : ℕ) (es : List E) → AreSized byte_size limit es → length es < 2 → bytes es ≤ limit
  small-lt limit [] a h = omega arith
  small-lt limit (e ∷ []) a h = omega arith
  small-lt limit (e ∷ f ∷ es) a h = absurd (omega arith)

  module _ {X : Type 0} (c : Settings) (set : IsSettings c) (a : ArrayDataSlab E X)
      (leaf : IsLeaf byte_size a) (limit wanted : ℕ) (sized : AreSized byte_size limit a.elements)
      (few : wanted ≤ c.min_threshold) where
    abbrev Small : Type 0
    Small = a.header.size < c.min_threshold + wanted + limit

    refused :
        (es : List E)
        → bytes es ≡ bytes a.elements
        → AreSized byte_size limit es
        → (if ltb (length a.elements) 2
            then false
            else if ltb (sub32 a.header.size wanted) (c.min_threshold % u32_mod)
            then false
            else can_lend_loop byte_size (c.min_threshold % u32_mod) a.header.size wanted 0 es)
          ≡ false
        → Small
    unfolding sub32
    refused es e s h =
        let least : c.min_threshold % u32_mod ≡ c.min_threshold = omega arith in
        let h' = rw least at h in
        elim (Bool-cases (ltb (length a.elements) 2)) [
          | inl tiny ↦ omega (arith, small-lt limit a.elements sized (ground arith))
          | inr two ↦
              elim (Bool-cases
                (ltb ((a.header.size + u32_mod - wanted) % u32_mod) c.min_threshold)) [
                  | inl short ↦ ground (arith, short, sum_by-pos byte_size limit a.elements sized)
                  | inr enough ↦
                      refused-lt c.min_threshold a.header.size wanted 0 limit es (omega arith)
                        leaf.fits (omega arith) (omega arith) s (ground (arith, h', two, enough))
                ]
        ]

    refused_left : can_lend_to_left byte_size c a wanted ≡ false → Small
    unfolding can_lend_to_left least_size
    refused_left h = refused a.elements refl sized h

    refused_right : can_lend_to_right byte_size c a wanted ≡ false → Small
    unfolding can_lend_to_right least_size
    refused_right h =
        refused (reverse a.elements) (bytes-reverse byte_size a.elements)
          (AreSized-reverse byte_size limit a.elements sized) h

  -- What a merge promises: the elements of both leaves in order, a right header, the left one's ID,
  -- the right one's place in the chain, and a size within the thresholds.
  pub record Merges {X : Type 0} (c : Settings) (a right m : ArrayDataSlab E X) : Type 0 where
    pub same : m.elements ≡ a.elements ++ right.elements
    pub leaf : IsLeaf byte_size m
    pub id : m.header.slab_id ≡ a.header.slab_id
    pub next : m.next ≡ right.next
    pub range : (is_full c m ≡ false) × (is_underflow c m ≡ none)

  merge-Merges :
      {X : Type 0} (c : Settings) (a right : ArrayDataSlab E X)
      → IsSettings c
      → IsLeaf byte_size a
      → IsLeaf byte_size right
      → length a.elements + length right.elements < 2 ^ 30
      → a.header.size + right.header.size ≤ c.max_threshold + array_data_slab_prefix_size
      → c.min_threshold + array_data_slab_prefix_size ≤ a.header.size + right.header.size
      → Merges c a right (merge a right)
  unfolding merge add32 sub32
  merge-Merges c a right set la lr few most least =
      let sizes = sum_by-append byte_size a.elements right.elements in
      let lengths = length-append a.elements right.elements in
      record {
        same = refl;
        leaf = omega (arith, sizes, lengths);
        id = refl;
        next = refl;
        range = in_range c (merge a right) set (omega arith) (omega arith);
      }

  -- A leaf that lacks `wanted` bytes, and a neighbour in range that cannot lend them, fit together.
  module _ {X : Type 0} (c : Settings) (short neighbour : ArrayDataSlab E X) (wanted : ℕ)
      (set : IsSettings c) (ls : IsLeaf byte_size short) (ln : IsLeaf byte_size neighbour)
      (ss : AreSized byte_size c.max_inline_array_element_size short.elements)
      (sn : AreSized byte_size c.max_inline_array_element_size neighbour.elements)
      (under : is_underflow c short ≡ some wanted) (full : is_full c neighbour ≡ false)
      (enough : is_underflow c neighbour ≡ none) where
    few : length short.elements + length neighbour.elements < 2 ^ 30
    few =
        let (lacks, missing) = is_underflow-missing c short set wanted under in
        let room = is_full-le c neighbour set full in
        omega (
          arith,
          sum_by-pos byte_size c.max_inline_array_element_size short.elements ss,
          sum_by-pos byte_size c.max_inline_array_element_size neighbour.elements sn,
        )

    fitting :
        neighbour.header.size < c.min_threshold + wanted + c.max_inline_array_element_size
        → (short.header.size + neighbour.header.size
            ≤ c.max_threshold + array_data_slab_prefix_size)
          × (c.min_threshold + array_data_slab_prefix_size
              ≤ short.header.size + neighbour.header.size)
    fitting small =
        let (lacks, missing) = is_underflow-missing c short set wanted under in
        omega (arith, is_underflow-le c neighbour set enough)

    -- Merging a leaf that lacks bytes into its left neighbour, where the neighbour is in range and
    -- cannot lend what is missing, keeps all elements in order, and the merged leaf is neither full
    -- nor short of bytes.
    pub merge_into_left :
        can_lend_to_right byte_size c neighbour wanted ≡ false
        → Merges c neighbour short (merge neighbour short)
    merge_into_left h =
        let (lacks, missing) = is_underflow-missing c short set wanted under in
        let small = c.max_inline_array_element_size in
        let (most, least) =
          fitting (refused_right c set neighbour ln small wanted sn (omega arith) h) in
        merge-Merges c neighbour short set ln ls (omega (arith, few)) (omega arith) (omega arith)

    -- Merging its right neighbour into a leaf that lacks bytes, where the neighbour is in range and
    -- cannot lend what is missing, keeps all elements in order, and the merged leaf is neither full
    -- nor short of bytes.
    pub merge_from_right :
        can_lend_to_left byte_size c neighbour wanted ≡ false
        → Merges c short neighbour (merge short neighbour)
    merge_from_right h =
        let (lacks, missing) = is_underflow-missing c short set wanted under in
        let small = c.max_inline_array_element_size in
        let (most, least) =
          fitting (refused_left c set neighbour ln small wanted sn (omega arith) h) in
        merge-Merges c short neighbour set ls ln few most least
