-- ===== src/Array/Data/Shape.antt =====
-- The invariant of a leaf that is neither the root nor inlined (array_data_slab.go, settings.go).
use atree.Prelude.{ℕ, ◌+◌, ◌≤◌, ◌<◌, ◌≡◌, ◌^◌, List, [], ◌∷◌, ◌++◌, length, sum_by, arith}
use atree.Settings.{array_data_slab_prefix_size}
use atree.Array.Slab.{ArrayDataSlab}

module _ {E : Type 0} (byte_size : E → ℕ) where
  -- Every element takes at least one byte and at most `limit` bytes.
  abbrev pub AreSized : ℕ → List E → Type 0
  AreSized limit [] = Unit
  AreSized limit (e ∷ es) = (0 < byte_size e) × (byte_size e ≤ limit) × AreSized limit es

  pub sum_by-pos : (limit : ℕ) (es : List E) → AreSized limit es → length es ≤ sum_by byte_size es
  sum_by-pos limit [] h = omega arith
  sum_by-pos limit (e ∷ es) h = omega (arith, sum_by-pos limit es h.2, h.0)

  pub AreSized-append :
      (limit : ℕ) (xs ys : List E)
      → AreSized limit xs
      → AreSized limit ys
      → AreSized limit (xs ++ ys)
  AreSized-append limit [] ys h k = k
  AreSized-append limit (x ∷ xs) ys h k = (h.0, h.1, AreSized-append limit xs ys h.2 k)

  pub AreSized-left : (limit : ℕ) (xs ys : List E) → AreSized limit (xs ++ ys) → AreSized limit xs
  AreSized-left limit [] ys h = tt
  AreSized-left limit (x ∷ xs) ys h = (h.0, h.1, AreSized-left limit xs ys h.2)

  pub AreSized-right : (limit : ℕ) (xs ys : List E) → AreSized limit (xs ++ ys) → AreSized limit ys
  AreSized-right limit [] ys h = h
  AreSized-right limit (x ∷ xs) ys h = AreSized-right limit xs ys h.2

  -- The header counts the elements and their bytes, and neither number is near the limit of a
  -- uint32.
  pub record IsLeaf {X : Type 0} (a : ArrayDataSlab E X) : Type 0 where
    pub counted : a.header.count ≡ length a.elements
    pub sized : a.header.size ≡ array_data_slab_prefix_size + sum_by byte_size a.elements
    pub fits : a.header.size < 2 ^ 30
    pub few : a.header.count < 2 ^ 30
