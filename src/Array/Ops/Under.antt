-- ===== src/Array/Ops/Under.antt =====
-- The tree of slabs below a slab of an array: the elements that it holds in order, and the IDs of
-- its slabs, each of which has one place in the tree.
use atree.Prelude.{
  ℕ, zero, suc, ◌<◌, ◌≤◌, ◌≡◌, ◌∙◌, ap, sym, refl, Bool, true, false, ◌||◌, ◌&&◌, none, some, List,
  [], ◌∷◌, ◌++◌, length, length-append, arith, Bool-cases, inl, inr,
}
use atree.Bytes.{Bytes8}
use atree.Ids.{SlabId, SlabId_eq, SlabId_eq_iff}
use atree.Errors.{ok}
use atree.Storage.Interface.{StorageView}
use atree.Settings.{Settings}
use atree.Array.Slab.{ArraySlabHeader, Slab}
use atree.Array.Data.Shape.{AreSized}
use atree.Array.Data.Update.{IsDataSlab}
use atree.Array.Meta.Shape.{IsMeta, AreFilled, counts}
use atree.Array.Tree.{ArraySlab, leaf, node, header_of, slab_of, is_inlined, extra_data_of}

-- A set of IDs.
abbrev pub Footprint : Type 0
Footprint = SlabId → Bool

-- `f` is the union of `g` and `k`, which have no ID in common.
pub record Joins (f g k : Footprint) : Type 0 where
  pub all : (j : SlabId) → f j ≡ (g j || k j)
  pub apart : (j : SlabId) → (g j && k j) ≡ false

-- An ID and a set without it.
pub id-outside :
    (k : SlabId) (f : Footprint) → f k ≡ false → (i : SlabId) → (SlabId_eq k i && f i) ≡ false
id-outside k f h i = elim (Bool-cases (SlabId_eq k i)) [
  | inr other ↦ rw other refl
  | inl same ↦ rw same (ap f (sym ((SlabId_eq_iff k i).0 same)) ∙ h)
]

-- What is said of a slab, the elements below it and the IDs of its slabs.
abbrev pub TreeOf : Type 0 → Type 0 → Type 1
TreeOf E X = ArraySlab E X → List E → Footprint → Type 0

module _ {E X O S : Type 0} (byte_size : E → ℕ) (c : Settings) (view : StorageView S (Slab E X O))
    (address : Bytes8) where
  -- The slab that a child header stands for: it is not empty, is not full, is no root and is not
  -- inlined.
  pub record HasChild (rel : TreeOf E X) (s : S) (h : ArraySlabHeader) (ys : List E) (f : Footprint)
      : Type 0 where
    pub child : ArraySlab E X
    pub stored : view.held s h.slab_id ≡ ok (some (slab_of child))
    pub headed : header_of child ≡ h
    pub filled : 0 < h.count
    pub small : h.size ≤ c.max_threshold
    pub inner : extra_data_of child ≡ none
    pub apart : is_inlined child ≡ false
    pub placed : h.slab_id.address ≡ address
    pub below : rel child ys f

  -- The slabs that child headers stand for, and their elements from the first child to the last.
  abbrev pub HasChildren : TreeOf E X → S → List ArraySlabHeader → List E → Footprint → Type 0
  HasChildren rel s [] xs f = (xs ≡ []) × ((j : SlabId) → f j ≡ false)
  HasChildren rel s (h ∷ hs) xs f =
      (ys : List E) × (zs : List E) × (g : Footprint) × (k : Footprint) × HasChild rel s h ys g
      × HasChildren rel s hs zs k
      × (xs ≡ ys ++ zs)
      × Joins f g k

  -- A tree with leaves at depth `d`.
  unfoldable pub IsUnder : S → ℕ → TreeOf E X
  IsUnder s zero (leaf a) xs f =
      IsDataSlab byte_size a
      × (a.elements ≡ xs)
      × AreSized byte_size c.max_inline_array_element_size xs
      × ((j : SlabId) → f j ≡ SlabId_eq a.header.slab_id j)
  IsUnder s (suc d) (leaf a) xs f = ⊥
  IsUnder s zero (node a) xs f = ⊥
  IsUnder s (suc d) (node a) xs f =
      IsMeta a
      × (g : Footprint) × ((j : SlabId) → f j ≡ (SlabId_eq a.header.slab_id j || g j))
      × (g a.header.slab_id ≡ false)
      × HasChildren (IsUnder s d) s a.children_headers xs g

  module _ (d : ℕ) (s : S)
      (count-below : (slab : ArraySlab E X) (xs : List E) (f : Footprint)
        → IsUnder s d slab xs f
        → (header_of slab).count ≡ length xs) where
    counts-HasChildren :
        (hs : List ArraySlabHeader) (xs : List E) (f : Footprint)
        → HasChildren (IsUnder s d) s hs xs f
        → counts hs ≡ length xs
    counts-HasChildren [] xs f (e, _) = ap length (sym e)
    counts-HasChildren (h ∷ hs) xs f (ys, zs, g, k, has, more, split, _) = omega (
      arith,
      count-below has.child ys g has.below,
      ap (λ (i : ArraySlabHeader). i.count) has.headed,
      counts-HasChildren hs zs k more,
      length-append ys zs,
      ap length split,
    )

  -- The header counts the elements.
  pub count-IsUnder :
      (s : S) (d : ℕ) (slab : ArraySlab E X) (xs : List E) (f : Footprint)
      → IsUnder s d slab xs f
      → (header_of slab).count ≡ length xs
  unfolding IsUnder header_of
  count-IsUnder s zero (leaf a) xs f (sound, e, _, _) = sound.counted ∙ ap length e
  count-IsUnder s (suc d) (leaf a) xs f u = absurd u
  count-IsUnder s zero (node a) xs f u = absurd u
  count-IsUnder s (suc d) (node a) xs f (meta, g, own, fresh, children) =
      meta.counted ∙ counts-HasChildren d s (count-IsUnder s d) a.children_headers xs g children

  pub own-IsUnder :
      (s : S) (d : ℕ) (slab : ArraySlab E X) (xs : List E) (f : Footprint)
      → IsUnder s d slab xs f
      → f (header_of slab).slab_id ≡ true
  unfolding IsUnder header_of
  own-IsUnder s zero (leaf a) xs f (_, _, _, own) =
      ground (arith, own a.header.slab_id, SlabId_eq_iff a.header.slab_id a.header.slab_id)
  own-IsUnder s (suc d) (leaf a) xs f u = absurd u
  own-IsUnder s zero (node a) xs f u = absurd u
  own-IsUnder s (suc d) (node a) xs f (meta, g, own, _, _) =
      ground (arith, own a.header.slab_id, SlabId_eq_iff a.header.slab_id a.header.slab_id)

  pub AreFilled-HasChildren :
      (rel : TreeOf E X) (s : S) (hs : List ArraySlabHeader) (xs : List E) (f : Footprint)
      → HasChildren rel s hs xs f
      → AreFilled hs
  AreFilled-HasChildren rel s [] xs f u = tt
  AreFilled-HasChildren rel s (h ∷ hs) xs f (ys, zs, g, k, has, more, _, _) =
      (has.filled, AreFilled-HasChildren rel s hs zs k more)

  -- Two states hold the same under some IDs.
  abbrev pub Agree : S → S → Footprint → Type 0
  Agree s s' f = (j : SlabId) → f j ≡ true → view.held s' j ≡ view.held s j

  module _ (d : ℕ) (s s' : S)
      (frame-below : (slab : ArraySlab E X) (xs : List E) (f : Footprint)
        → Agree s s' f
        → IsUnder s d slab xs f
        → IsUnder s' d slab xs f) where
    HasChild-frame :
        (h : ArraySlabHeader) (ys : List E) (f : Footprint)
        → Agree s s' f
        → HasChild (IsUnder s d) s h ys f
        → HasChild (IsUnder s' d) s' h ys f
    HasChild-frame h ys f agree has =
        let inside : f h.slab_id ≡ true =
          ap (λ (g : ArraySlabHeader). f g.slab_id) (sym has.headed)
          ∙ own-IsUnder s d has.child ys f has.below in
        record {
          child = has.child;
          stored = agree h.slab_id inside ∙ has.stored;
          headed = has.headed;
          filled = has.filled;
          small = has.small;
          inner = has.inner;
          apart = has.apart;
          placed = has.placed;
          below = frame-below has.child ys f agree has.below;
        }

    HasChildren-frame_by :
        (hs : List ArraySlabHeader) (xs : List E) (f : Footprint)
        → Agree s s' f
        → HasChildren (IsUnder s d) s hs xs f
        → HasChildren (IsUnder s' d) s' hs xs f
    HasChildren-frame_by [] xs f agree u = u
    HasChildren-frame_by (h ∷ hs) xs f agree (ys, zs, g, k, has, more, split, joins) = (
      ys,
      zs,
      g,
      k,
      HasChild-frame h ys g (λ j m. agree j (ground (arith, joins.all j, m))) has,
      HasChildren-frame_by hs zs k (λ j m. agree j (ground (arith, joins.all j, m))) more,
      split,
      joins,
    )

  -- A tree depends on what is held under its IDs alone.
  pub IsUnder-frame :
      (d : ℕ) (s s' : S) (slab : ArraySlab E X) (xs : List E) (f : Footprint)
      → Agree s s' f
      → IsUnder s d slab xs f
      → IsUnder s' d slab xs f
  unfolding IsUnder
  IsUnder-frame zero s s' (leaf a) xs f agree u = u
  IsUnder-frame (suc d) s s' (leaf a) xs f agree u = absurd u
  IsUnder-frame zero s s' (node a) xs f agree u = absurd u
  IsUnder-frame (suc d) s s' (node a) xs f agree (meta, g, own, fresh, children) = (
    meta,
    g,
    own,
    fresh,
    HasChildren-frame_by d s s' (IsUnder-frame d s s') a.children_headers xs g
        (λ j m. agree j (ground (arith, own j, m))) children,
  )

  pub HasChildren-frame :
      (d : ℕ) (s s' : S) (hs : List ArraySlabHeader) (xs : List E) (f : Footprint)
      → Agree s s' f
      → HasChildren (IsUnder s d) s hs xs f
      → HasChildren (IsUnder s' d) s' hs xs f
  HasChildren-frame d s s' = HasChildren-frame_by d s s' (IsUnder-frame d s s')

  -- The slab at the top is not read from the storage.
  pub IsUnder-frame_below :
      (d : ℕ) (s s' : S) (slab : ArraySlab E X) (xs : List E) (f : Footprint)
      → ((j : SlabId)
          → f j ≡ true
          → SlabId_eq (header_of slab).slab_id j ≡ false
          → view.held s' j ≡ view.held s j)
      → IsUnder s d slab xs f
      → IsUnder s' d slab xs f
  unfolding IsUnder header_of
  IsUnder-frame_below zero s s' (leaf a) xs f agree u = u
  IsUnder-frame_below (suc d) s s' (leaf a) xs f agree u = absurd u
  IsUnder-frame_below zero s s' (node a) xs f agree u = absurd u
  IsUnder-frame_below (suc d) s s' (node a) xs f agree (meta, g, own, fresh, children) = (
    meta,
    g,
    own,
    fresh,
    HasChildren-frame d s s' a.children_headers xs g
        (λ j m.
          agree j (ground (arith, own j, m))
            (ground (arith, id-outside a.header.slab_id g fresh j, m)))
        children,
  )
