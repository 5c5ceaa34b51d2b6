-- ===== src/Array/Data/Rebalance/Lendable.antt =====
-- CanLendToLeft and CanLendToRight (array_data_slab.go): what a positive answer means.
use atree.Prelude.{
  ℕ, ◌+◌, ◌-◌, ◌%◌, ◌^◌, ◌≤◌, ◌<◌, ◌≡◌, refl, ◌∙◌, ap, true, List, [], ◌∷◌, arith, leb, length,
  sum_by, add32, sub32, u32_mod, add32_lem, sub32_lem, Bool-cases, inl, inr, ◌⊎◌, reverse,
  sum_by-append, length-append,
}
use mathlib.Core.List.{reverse-append}
use atree.Settings.{Settings, IsSettings, array_data_slab_prefix_size}
use atree.Array.Slab.{ArrayDataSlab}
use atree.Array.Data.Shape.{AreSized, AreSized-append, IsLeaf}
use atree.Array.Data.Rebalance.{least_size, can_lend_loop, can_lend_to_left, can_lend_to_right}

module _ {E : Type 0} (byte_size : E → ℕ) where
  abbrev bytes : List E → ℕ
  bytes = sum_by byte_size

  -- Of a slab of `header_size` bytes, of which `lent` are gone, the next of the elements can go one
  -- by one until `wanted` bytes are lent, and `least` bytes stay each time.
  abbrev pub IsLendable : ℕ → ℕ → ℕ → ℕ → List E → Type 0
  IsLendable least header_size wanted lent [] = ⊥
  IsLendable least header_size wanted lent (e ∷ es) =
      (least + lent + byte_size e ≤ header_size)
      × ((wanted ≤ lent + byte_size e)
          ⊎ IsLendable least header_size wanted (lent + byte_size e) es)

  pub IsLendable-le :
      (least header_size wanted lent : ℕ) (es : List E)
      → IsLendable least header_size wanted lent es
      → least + wanted ≤ header_size
  IsLendable-le least hs wanted lent [] h = absurd h
  IsLendable-le least hs wanted lent (e ∷ es) (h, inl enough) = omega arith
  IsLendable-le least hs wanted lent (e ∷ es) (h, inr rest) =
      IsLendable-le least hs wanted (lent + byte_size e) es rest

  pub can_lend_loop-IsLendable :
      (prefix least header_size wanted lent : ℕ) (es : List E)
      → header_size ≡ prefix + lent + bytes es
      → header_size < 2 ^ 30
      → can_lend_loop byte_size least header_size wanted lent es ≡ true
      → IsLendable least header_size wanted lent es
  unfolding can_lend_loop
  can_lend_loop-IsLendable prefix least hs wanted lent [] e b h = cc
  can_lend_loop-IsLendable prefix least hs wanted lent (x ∷ es) e b h =
      let plus : add32 lent (byte_size x) ≡ lent + byte_size x = add32_lem _ _ (omega arith) in
      let minus : sub32 hs (lent + byte_size x) ≡ hs - (lent + byte_size x) =
        sub32_lem _ _ (omega arith) (omega arith) in
      let h' = rw (plus, minus) at h in
      let rest =
        can_lend_loop-IsLendable prefix least hs wanted (lent + byte_size x) es (omega arith) b in
      elim (Bool-cases (leb wanted (lent + byte_size x))) [
        | inl enough ↦ (ground (arith, h', enough), inl (ground arith))
        | inr more ↦ (ground (arith, h', more), inr (rest (ground (arith, h', more))))
      ]

  pub bytes-reverse : (es : List E) → bytes (reverse es) ≡ bytes es
  bytes-reverse [] = refl
  bytes-reverse (e ∷ es) =
      ap bytes (reverse-append (e ∷ []) es)
      ∙ sum_by-append byte_size (reverse es) (e ∷ [])
      ∙ omega (arith, bytes-reverse es)

  pub length-reverse : (es : List E) → length (reverse es) ≡ length es
  length-reverse [] = refl
  length-reverse (e ∷ es) =
      ap length (reverse-append (e ∷ []) es)
      ∙ length-append (reverse es) (e ∷ [])
      ∙ omega (arith, length-reverse es)

  pub AreSized-reverse :
      (limit : ℕ) (es : List E)
      → AreSized byte_size limit es
      → AreSized byte_size limit (reverse es)
  AreSized-reverse limit [] h = h
  AreSized-reverse limit (e ∷ es) h = rw (reverse-append (e ∷ []) es) (
      AreSized-append byte_size limit (reverse es) (e ∷ []) (AreSized-reverse limit es h.2)
        (h.0, h.1, tt))

  module _ {X : Type 0} (c : Settings) (set : IsSettings c) (a : ArrayDataSlab E X)
      (leaf : IsLeaf byte_size a) (wanted : ℕ) where
    pub can_lend_to_left-IsLendable :
        can_lend_to_left byte_size c a wanted ≡ true
        → IsLendable c.min_threshold a.header.size wanted 0 a.elements
    unfolding can_lend_to_left least_size
    can_lend_to_left-IsLendable h = rw same at (
        can_lend_loop-IsLendable array_data_slab_prefix_size (c.min_threshold % u32_mod)
          a.header.size wanted 0 a.elements (omega arith) leaf.fits (ground arith))
      where
        same : c.min_threshold % u32_mod ≡ c.min_threshold
        same = omega arith

    pub can_lend_to_right-IsLendable :
        can_lend_to_right byte_size c a wanted ≡ true
        → IsLendable c.min_threshold a.header.size wanted 0 (reverse a.elements)
    unfolding can_lend_to_right least_size
    can_lend_to_right-IsLendable h = rw same at (
        can_lend_loop-IsLendable array_data_slab_prefix_size (c.min_threshold % u32_mod)
          a.header.size wanted 0 (reverse a.elements) (omega (arith, bytes-reverse a.elements))
          leaf.fits (ground arith))
      where
        same : c.min_threshold % u32_mod ≡ c.min_threshold
        same = omega arith
