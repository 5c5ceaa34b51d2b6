-- ===== src/Array/Tree/Siblings.antt =====
-- How MergeOrRebalanceChildSlab chooses a sibling (array_metadata_slab.go, the table above it).
use atree.Prelude.{
  ◌≤◌, ◌≡◌, Bool, true, false, Option, none, some, refl, arith, ◌⊎◌, inl, inr, ltb, Bool-cases,
}
use atree.Array.Tree.{
  ArraySlab, Plan, plan, header_of, lend_from_left, borrow_from_right, merge_with_left,
  merge_with_right, stuck,
}

module _ {E X : Type 0} (lends_right lends_left : ArraySlab E X → Bool) where
  -- No sibling that is there can lend.
  abbrev Refuses : (ArraySlab E X → Bool) → Option (ArraySlab E X) → Type 0
  Refuses test none = Unit
  Refuses test (some s) = test s ≡ false

  -- A sibling that is there cannot lend, or is not larger.
  abbrev LendsNoMore : (ArraySlab E X → Bool) → ArraySlab E X → Option (ArraySlab E X) → Type 0
  LendsNoMore test s none = Unit
  LendsNoMore test s (some other) =
      (test other ≡ false) ⊎ ((header_of other).size ≤ (header_of s).size)

  -- A sibling that is there is not smaller.
  abbrev NotSmaller : ArraySlab E X → Option (ArraySlab E X) → Type 0
  NotSmaller s none = Unit
  NotSmaller s (some other) = (header_of s).size ≤ (header_of other).size

  -- What is right to do with the siblings that are there.
  abbrev pub Fits : Option (ArraySlab E X) → Option (ArraySlab E X) → Plan E X → Type 0
  Fits left right (lend_from_left l) =
      (left ≡ some l) × (lends_right l ≡ true) × LendsNoMore lends_left l right
  Fits left right (borrow_from_right r) =
      (right ≡ some r) × (lends_left r ≡ true) × LendsNoMore lends_right r left
  Fits left right (merge_with_left l) =
      (left ≡ some l) × Refuses lends_right left × Refuses lends_left right × NotSmaller l right
  Fits left right (merge_with_right r) =
      (right ≡ some r) × Refuses lends_right left × Refuses lends_left right × NotSmaller r left
  Fits left right stuck = (left ≡ none) × (right ≡ none)

  -- MergeOrRebalanceChildSlab rebalances with a sibling that can lend, and where both can with one
  -- that is not smaller than the other; where none can, it merges with a sibling that is not larger
  -- than the other; and only without siblings it is stuck.
  pub plan-Fits :
      (left right : Option (ArraySlab E X))
      → Fits left right (plan lends_right lends_left left right)
  unfolding plan
  plan-Fits none none = (refl, refl)
  plan-Fits none (some r) = elim (Bool-cases (lends_left r)) [
    | inl can ↦ rw (plan, can) (refl, can, tt)
    | inr refuses ↦ rw (plan, refuses) (refl, tt, refuses, tt)
  ]
  plan-Fits (some l) none = elim (Bool-cases (lends_right l)) [
    | inl can ↦ rw (plan, can) (refl, can, tt)
    | inr refuses ↦ rw (plan, refuses) (refl, refuses, tt, tt)
  ]
  plan-Fits (some l) (some r) = elim (Bool-cases (lends_right l)) [
    | inl left ↦ elim (Bool-cases (lends_left r)) [
      | inl right ↦ elim (Bool-cases (ltb (header_of r).size (header_of l).size)) [
        | inl less ↦ rw (plan, left, right, less) (refl, left, inr (ground (arith, less)))
        | inr more ↦ rw (plan, left, right, more) (refl, right, inr (ground (arith, more)))
      ]
      | inr right ↦ rw (plan, left, right) (refl, left, inl right)
    ]
    | inr left ↦ elim (Bool-cases (lends_left r)) [
      | inl right ↦ rw (plan, left, right) (refl, right, inl left)
      | inr right ↦ elim (Bool-cases (ltb (header_of l).size (header_of r).size)) [
        | inl less ↦ rw (plan, left, right, less) (refl, left, right, ground (arith, less))
        | inr more ↦ rw (plan, left, right, more) (refl, left, right, ground (arith, more))
      ]
    ]
  ]
