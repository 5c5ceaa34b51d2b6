-- ===== src/Array/Ops/Exchange.antt =====
-- The writes of MergeOrRebalanceChildSlab to the storage, for two neighbours and their parent
-- (array_metadata_slab.go).
use atree.Prelude.{ℕ, ◌≡◌, ◌∙◌, refl, true, false, none, some, arith}
use atree.Bytes.{Bytes8}
use atree.Ids.{SlabId, SlabId_eq}
use atree.Errors.{ok, wrap_result}
use atree.Storage.Interface.{SlabStorage, StorageView, IsLawfulStorage}
use atree.Storage.Keys.{SlabId_eq_refl}
use atree.Settings.{Settings}
use atree.Array.Slab.{ArraySlabHeader, ArrayMetaDataSlab, Slab}
use atree.Array.Tree.{
  ArraySlab, node, header_of, slab_of, with_rebalanced, with_merged, finish_rebalance, merge_pair,
  merge_slabs, put,
}

module _ {E X O S : Type 0} (byte_size : E → ℕ) (c : Settings)
    (storage : SlabStorage S (Slab E X O)) (view : StorageView S (Slab E X O))
    (lawful : IsLawfulStorage storage view) (address : Bytes8) where
  -- Three IDs that have been given out, and differ.
  pub record AreApart (x y o : SlabId) (s : S) : Type 0 where
    pub used_x : view.used s x ≡ true
    pub used_y : view.used s y ≡ true
    pub used_o : view.used s o ≡ true
    pub x_y : SlabId_eq x y ≡ false
    pub y_x : SlabId_eq y x ≡ false
    pub o_x : SlabId_eq o x ≡ false
    pub o_y : SlabId_eq o y ≡ false
    pub y_o : SlabId_eq y o ≡ false

  -- Nothing else is changed.
  abbrev pub Frames : SlabId → SlabId → SlabId → S → S → Type 0
  Frames x y o s s' =
      (j : SlabId)
      → SlabId_eq x j ≡ false
      → SlabId_eq y j ≡ false
      → SlabId_eq o j ≡ false
      → view.held s' j ≡ view.held s j

  pub finish_rebalance_lem :
      (a m : ArrayMetaDataSlab X) (i old : ℕ) (l r : ArraySlab E X) (s : S)
      → with_rebalanced a i old (header_of l) (header_of r) ≡ ok m
      → AreApart (header_of l).slab_id (header_of r).slab_id m.header.slab_id s
      → (s' : S) × (finish_rebalance byte_size c storage a i old (l, r) s ≡ (ok m, s'))
        × (view.held s' (header_of l).slab_id ≡ ok (some (slab_of l)))
        × (view.held s' (header_of r).slab_id ≡ ok (some (slab_of r)))
        × (view.held s' m.header.slab_id ≡ ok (some (slab_of (node m))))
        × Frames (header_of l).slab_id (header_of r).slab_id m.header.slab_id s s'
  unfolding finish_rebalance header_of wrap_result
  finish_rebalance_lem a m i old l r s e h =
      let (s1, e1, w1, u1) = lawful.store-held (header_of l).slab_id (slab_of l) s h.used_x in
      let (s2, e2, w2, u2) =
        lawful.store-held (header_of r).slab_id (slab_of r) s1 (u1.used _ ∙ h.used_y) in
      let (s3, e3, w3, u3) =
        lawful.store-held m.header.slab_id (slab_of {E = E} (node m)) s2
          (u2.used _ ∙ (u1.used _ ∙ h.used_o)) in
      (
        s3,
        rw (e, e1, e2, e3) refl,
        w3 _ ∙ rw h.o_x (w2 _ ∙ rw h.y_x (w1 _ ∙ rw (SlabId_eq_refl _) refl)),
        w3 _ ∙ rw h.o_y (w2 _ ∙ rw (SlabId_eq_refl _) refl),
        w3 _ ∙ rw (SlabId_eq_refl _) refl,
        λ j x y o. w3 j ∙ rw o (w2 j ∙ rw y (w1 j ∙ rw x refl)),
      )

  pub merge_pair_lem :
      (a m : ArrayMetaDataSlab X) (i : ℕ) (l r z : ArraySlab E X) (s : S)
      → merge_slabs l r ≡ ok z
      → with_merged a i (header_of z) ≡ ok m
      → AreApart (header_of z).slab_id (header_of r).slab_id m.header.slab_id s
      → (s' : S) × (merge_pair byte_size c storage a i l r s ≡ (ok m, s'))
        × (view.held s' (header_of z).slab_id ≡ ok (some (slab_of z)))
        × (view.held s' (header_of r).slab_id ≡ ok none)
        × (view.held s' m.header.slab_id ≡ ok (some (slab_of (node m))))
        × Frames (header_of z).slab_id (header_of r).slab_id m.header.slab_id s s'
  unfolding merge_pair header_of wrap_result
  merge_pair_lem a m i l r z s merged e h =
      let (s1, e1, w1, u1) = lawful.store-held (header_of z).slab_id (slab_of z) s h.used_x in
      let (s2, e2, w2, u2) =
        lawful.store-held m.header.slab_id (slab_of {E = E} (node m)) s1 (u1.used _ ∙ h.used_o) in
      let (s3, e3, held, same) =
        lawful.remove-held (header_of r).slab_id s2 (u2.used _ ∙ (u1.used _ ∙ h.used_y)) in
      (
        s3,
        rw (merged, e, e1, e2, e3) refl,
        held _ ∙ rw h.y_x (w2 _ ∙ rw h.o_x (w1 _ ∙ rw (SlabId_eq_refl _) refl)),
        held _ ∙ rw (SlabId_eq_refl _) refl,
        held _ ∙ rw h.y_o (w2 _ ∙ rw (SlabId_eq_refl _) refl),
        λ j x y o. held j ∙ rw y (w2 j ∙ rw o (w1 j ∙ rw x refl)),
      )

pub with_rebalanced-id :
    {X : Type 0} (a m : ArrayMetaDataSlab X) (i old : ℕ) (l r : ArraySlabHeader)
    → with_rebalanced a i old l r ≡ ok m
    → m.header.slab_id ≡ a.header.slab_id
unfolding with_rebalanced put
with_rebalanced-id a m i old l r e = ground arith

pub with_merged-id :
    {X : Type 0} (a m : ArrayMetaDataSlab X) (i : ℕ) (h : ArraySlabHeader)
    → with_merged a i h ≡ ok m
    → m.header.slab_id ≡ a.header.slab_id
unfolding with_merged
with_merged-id a m i h e = ground arith
