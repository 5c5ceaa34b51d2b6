-- ===== src/Array/Ops/Underflow.antt =====
-- The siblings of a child that lacks bytes, as MergeOrRebalanceChildSlab reads them, and what it
-- makes of them (array_metadata_slab.go).
use atree.Prelude.{
  ℕ, suc, ◌<◌, ◌≤◌, ◌≡◌, ◌∙◌, ◌⊎◌, inl, inr, refl, sym, true, false, ltb, Option, none, some,
  get_elem?, length, arith,
}
use atree.Bytes.{Bytes8}
use atree.Errors.{ok}
use atree.Storage.Interface.{SlabStorage, StorageView, IsLawfulStorage}
use atree.Settings.{Settings}
use atree.Array.Slab.{ArrayDataSlab, ArrayMetaDataSlab, Slab, data_slab}
use atree.Array.Data.{is_full, is_underflow}
use atree.Array.Data.Shape.{IsLeaf, AreSized}
use atree.Array.Tree.{ArraySlab, leaf, slab_of, left_sibling, right_sibling, get_sibling}
use atree.Array.Ops.Step.{Keeps, Keeps-refl, get_array_slab_lem}
use atree.Array.Ops.Exchange.{AreApart}
use atree.Array.Ops.Restore.{Evens, Joins}

abbrev pub leaf_of : {E X : Type 0} → Option (ArrayDataSlab E X) → Option (ArraySlab E X)
leaf_of none = none
leaf_of (some n) = some (leaf n)

pub leaf_of-some :
    {E X : Type 0} (o : Option (ArrayDataSlab E X)) (t : ArraySlab E X)
    → leaf_of o ≡ some t
    → (n : ArrayDataSlab E X) × (o ≡ some n) × (t ≡ leaf n)
leaf_of-some none t h = absurd cc
leaf_of-some (some n) t h = let same : leaf n ≡ t = cc in (n, refl, sym same)

pub leaf_of-none : {E X : Type 0} (o : Option (ArrayDataSlab E X)) → leaf_of o ≡ none → o ≡ none
leaf_of-none none h = refl
leaf_of-none (some n) h = absurd cc

module _ {E X O S : Type 0} (byte_size : E → ℕ) (c : Settings)
    (storage : SlabStorage S (Slab E X O)) (view : StorageView S (Slab E X O))
    (lawful : IsLawfulStorage storage view) (address : Bytes8) where
  -- A leaf in the storage that is neither full nor short of bytes.
  pub record IsSibling (n : ArrayDataSlab E X) (s : S) : Type 0 where
    pub held : view.held s n.header.slab_id ≡ ok (some (data_slab n))
    pub is_leaf : IsLeaf byte_size n
    pub sized : AreSized byte_size c.max_inline_array_element_size n.elements
    pub not_full : is_full c n ≡ false
    pub enough : is_underflow c n ≡ none

  module _ (a : ArrayMetaDataSlab X) (b : ArrayDataSlab E X) (i : ℕ) (s : S) where
    -- The left and the right sibling of the child `b` at `i`.
    abbrev pub IsLeftSibling : Option (ArrayDataSlab E X) → Type 0
    IsLeftSibling none = i ≡ 0
    IsLeftSibling (some n) =
        (j : ℕ) × (i ≡ suc j)
        × (get_elem? a.children_headers j ≡ some n.header)
        × IsSibling n s
        × AreApart byte_size c storage view lawful address n.header.slab_id b.header.slab_id
            a.header.slab_id s

    abbrev pub IsRightSibling : Option (ArrayDataSlab E X) → Type 0
    IsRightSibling none = length a.children_headers ≤ suc i
    IsRightSibling (some n) =
        (suc i < length a.children_headers)
        × (get_elem? a.children_headers (suc i) ≡ some n.header)
        × IsSibling n s
        × AreApart byte_size c storage view lawful address b.header.slab_id n.header.slab_id
            a.header.slab_id s

    -- The neighbours `x` and `y` have shared out their elements, or have become one leaf.
    abbrev pub Restores :
        ArrayMetaDataSlab X → ℕ → ArrayDataSlab E X → ArrayDataSlab E X → S → Type 0
    Restores m k x y s' =
        Evens byte_size c storage view lawful address a m k x y s s'
        ⊎ Joins byte_size c storage view lawful address a m k x y s s'

    -- The child and its left or its right sibling have done so.
    abbrev pub Restored :
        Option (ArrayDataSlab E X) → Option (ArrayDataSlab E X) → ArrayMetaDataSlab X → S → Type 0
    Restored left right m s' =
        ((n : ArrayDataSlab E X) × (j : ℕ) × (left ≡ some n) × (i ≡ suc j) × Restores m j n b s')
        ⊎ ((n : ArrayDataSlab E X) × (right ≡ some n) × Restores m i b n s')

    pub left_sibling_lem :
        (left : Option (ArrayDataSlab E X))
        → IsLeftSibling left
        → (s' : S) × (left_sibling byte_size c storage a i s ≡ (ok (leaf_of left), s'))
          × Keeps byte_size c storage view lawful address s s'
    unfolding left_sibling get_sibling slab_of
    left_sibling_lem none h = (s, rw h refl, Keeps-refl byte_size c storage view lawful address s)
    left_sibling_lem (some n) (j, at, e, n_is, apart) =
        let (s', read, keeps) =
          get_array_slab_lem byte_size c storage view lawful address n.header.slab_id (leaf n) s
            n_is.held in
        (s', rw (at, left_sibling, e, get_sibling, read) refl, keeps)

    pub right_sibling_lem :
        (right : Option (ArrayDataSlab E X)) (t : S)
        → Keeps byte_size c storage view lawful address s t
        → IsRightSibling right
        → (s' : S) × (right_sibling byte_size c storage a i t ≡ (ok (leaf_of right), s'))
          × Keeps byte_size c storage view lawful address t s'
    unfolding right_sibling get_sibling slab_of
    right_sibling_lem none t k h =
        let out : ltb (suc i) (length a.children_headers) ≡ false = ground (arith, h) in
        (t, rw out refl, Keeps-refl byte_size c storage view lawful address t)
    right_sibling_lem (some n) t k (within, e, n_is, apart) =
        let inside : ltb (suc i) (length a.children_headers) ≡ true = ground (arith, within) in
        let (s', read, keeps) =
          get_array_slab_lem byte_size c storage view lawful address n.header.slab_id (leaf n) t
            (k.held _ ∙ n_is.held) in
        (s', rw (inside, e, get_sibling, read) refl, keeps)

  pub AreApart-Keeps :
      (a : ArrayMetaDataSlab X) (x y : ArrayDataSlab E X) (s t : S)
      → Keeps byte_size c storage view lawful address s t
      → AreApart byte_size c storage view lawful address x.header.slab_id y.header.slab_id
          a.header.slab_id s
      → AreApart byte_size c storage view lawful address x.header.slab_id y.header.slab_id
          a.header.slab_id t
  AreApart-Keeps a x y s t k h = record {
    used_x = k.issued.used _ ∙ h.used_x;
    used_y = k.issued.used _ ∙ h.used_y;
    used_o = k.issued.used _ ∙ h.used_o;
    x_y = h.x_y;
    y_x = h.y_x;
    o_x = h.o_x;
    o_y = h.o_y;
    y_o = h.y_o;
  }

  pub Restores-Keeps :
      (a m : ArrayMetaDataSlab X) (b : ArrayDataSlab E X) (i k : ℕ) (x y : ArrayDataSlab E X)
      (s t s' : S)
      → Keeps byte_size c storage view lawful address s t
      → Restores a b i t m k x y s'
      → Restores a b i s m k x y s'
  Restores-Keeps a m b i k x y s t s' keeps (inl e) = inl (record {
    l = e.l;
    r = e.r;
    shares = e.shares;
    headers = e.headers;
    held_l = e.held_l;
    held_r = e.held_r;
    frame = λ j p q o. e.frame j p q o ∙ keeps.held j;
  })
  Restores-Keeps a m b i k x y s t s' keeps (inr e) = inr (record {
    z = e.z;
    merges = e.merges;
    headers = e.headers;
    held_z = e.held_z;
    removed = e.removed;
    frame = λ j p q o. e.frame j p q o ∙ keeps.held j;
  })
