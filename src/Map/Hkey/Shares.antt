-- ===== src/Map/Hkey/Shares.antt =====
-- What moving elements between two neighbours promises (map_elements_hashkey.go), and what a positive
-- answer of CanLendToLeft and CanLendToRight means.
use atree.Prelude.{ℕ, ◌+◌, ◌-◌, ◌≤◌, ◌≡◌, true, List, ◌++◌, arith, sub64}
use atree.Settings.{Settings, IsSettings, hkey_elements_prefix_size, map_data_slab_prefix_size}
use atree.Array.Data.Rebalance.Lendable.{IsLendable, can_lend_loop-IsLendable}
use atree.Map.Slab.{HkeyElements}
use atree.Map.Hkey.{sized}
use atree.Map.Hkey.Slabs.{least_lender_size, elements_can_lend, least_elements_size}
use atree.Map.Hkey.Shape.{sized_bytes, IsHkeyElements}

module _ {T : Type 0} (elem_size : T → ℕ) where
  -- `l` and `r` hold the digests and the elements of `e` and `right` in order, satisfy the
  -- invariant at the same level, and make leaves within the thresholds.
  pub record Shares (c : Settings) (e right l r : HkeyElements T) : Type 0 where
    pub hkeys : l.hkeys ++ r.hkeys ≡ e.hkeys ++ right.hkeys
    pub elems : l.elems ++ r.elems ≡ e.elems ++ right.elems
    pub left_shape : IsHkeyElements elem_size l
    pub right_shape : IsHkeyElements elem_size r
    pub left_level : l.level ≡ e.level
    pub right_level : r.level ≡ right.level
    pub least_left : c.min_threshold ≤ map_data_slab_prefix_size + l.size
    pub most_left : map_data_slab_prefix_size + l.size ≤ c.max_threshold
    pub least_right : c.min_threshold ≤ map_data_slab_prefix_size + r.size
    pub most_right : map_data_slab_prefix_size + r.size ≤ c.max_threshold

  module _ (c : Settings) (set : IsSettings c) where
    pub least_lender : least_lender_size elem_size c ≡ c.min_threshold - map_data_slab_prefix_size
    unfolding least_lender_size sub64
    least_lender = omega (arith, set.lower, set.least, set.most)

    pub least_elements : least_elements_size elem_size c ≡ c.min_threshold - 26
    unfolding least_elements_size sub64
    least_elements = omega (arith, set.lower, set.least, set.most)

    pub can_lend-Lendable :
        (ts : List T) (e : HkeyElements T) (wanted : ℕ)
        → IsHkeyElements elem_size e
        → sized_bytes elem_size ts ≡ sized_bytes elem_size e.elems
        → elements_can_lend elem_size c ts e wanted ≡ true
        → IsLendable
            (sized elem_size)
            (c.min_threshold - map_data_slab_prefix_size)
            e.size
            wanted
            0
            ts
    unfolding elements_can_lend
    can_lend-Lendable ts e wanted shape same can =
        can_lend_loop-IsLendable (sized elem_size) hkey_elements_prefix_size
          (c.min_threshold - map_data_slab_prefix_size) e.size wanted 0 ts
          (omega (arith, shape.counted)) shape.fits (ground (arith, rw least_lender at can))
