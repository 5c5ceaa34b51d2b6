-- ===== src/Array/Data/Thresholds.antt =====
-- The thresholds as the Boolean tests of a leaf see them (array_data_slab.go, settings.go).
use atree.Prelude.{ℕ, ◌+◌, ◌≤◌, ◌<◌, ◌≡◌, true, false, none, some, arith, sub32}
use atree.Settings.{Settings, IsSettings}
use atree.Array.Slab.{ArrayDataSlab}
use atree.Array.Data.{is_full, is_underflow}

module _ {E X : Type 0} (c : Settings) (a : ArrayDataSlab E X) (set : IsSettings c) where
  pub is_full-lt : is_full c a ≡ true → c.max_threshold < a.header.size
  unfolding is_full
  is_full-lt h = ground arith

  pub is_full-le : is_full c a ≡ false → a.header.size ≤ c.max_threshold
  unfolding is_full
  is_full-le h = ground arith

  pub le-is_full : a.header.size ≤ c.max_threshold → is_full c a ≡ false
  unfolding is_full
  le-is_full h = ground arith

  pub le-is_underflow : c.min_threshold ≤ a.header.size → is_underflow c a ≡ none
  unfolding is_underflow
  le-is_underflow h = ground arith

  pub is_underflow-le : is_underflow c a ≡ none → c.min_threshold ≤ a.header.size
  unfolding is_underflow
  is_underflow-le h = ground arith

  pub is_underflow-missing :
      (missing : ℕ)
      → is_underflow c a ≡ some missing
      → (a.header.size < c.min_threshold) × (a.header.size + missing ≡ c.min_threshold)
  unfolding is_underflow sub32
  is_underflow-missing missing h = ground arith

  -- Neither full nor short of bytes.
  pub in_range :
      c.min_threshold ≤ a.header.size
      → a.header.size ≤ c.max_threshold
      → (is_full c a ≡ false) × (is_underflow c a ≡ none)
  in_range h k = (le-is_full k, le-is_underflow h)
