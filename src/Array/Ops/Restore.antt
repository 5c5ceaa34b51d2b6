-- ===== src/Array/Ops/Restore.antt =====
-- MergeOrRebalanceChildSlab on leaves (array_metadata_slab.go): a rebalance or a merge of two
-- neighbours with their parent, in the storage.
use atree.Prelude.{
  ℕ, suc, ◌+◌, ◌≡◌, ◌∙◌, refl, ap, none, some, get_elem?, set, remove_at, length, length-append,
  arith,
}
use atree.Bytes.{Bytes8}
use atree.Ids.{SlabId}
use atree.Errors.{ok}
use atree.Storage.Interface.{SlabStorage, StorageView, IsLawfulStorage}
use atree.Settings.{Settings}
use atree.Array.Slab.{ArrayDataSlab, ArrayMetaDataSlab, Slab, data_slab, meta_slab}
use atree.Array.Data.Shape.{IsLeaf}
use atree.Array.Data.Rebalance
use atree.Array.Data.Rebalance.Promise.{Rebalances}
use atree.Array.Data.Rebalance.Merge.{Merges}
use atree.Array.Meta.Shape.{IsMeta}
use atree.Array.Tree.{leaf, header_of, slab_of, finish_rebalance, merge_pair, merge_slabs}
use atree.Array.Tree.Parent.{with_rebalanced_lem, with_merged_lem}
use atree.Array.Ops.Exchange.{
  AreApart, Frames, finish_rebalance_lem, merge_pair_lem, with_rebalanced-id, with_merged-id,
}

module _ {E X O S : Type 0} (byte_size : E → ℕ) (c : Settings)
    (storage : SlabStorage S (Slab E X O)) (view : StorageView S (Slab E X O))
    (lawful : IsLawfulStorage storage view) (address : Bytes8) where
  AreApart-same :
      (x x' y y' o o' : SlabId) (s : S)
      → x' ≡ x
      → y' ≡ y
      → o' ≡ o
      → AreApart byte_size c storage view lawful address x y o s
      → AreApart byte_size c storage view lawful address x' y' o' s
  AreApart-same x x' y y' o o' s p q r h = rw (p, q, r) h

  -- The parent `m` is stored, and the leaves `x` and `y` at `k` and `k + 1` below `a` have shared
  -- out their elements.
  pub record Evens (a m : ArrayMetaDataSlab X) (k : ℕ) (x y : ArrayDataSlab E X) (s s' : S)
      : Type 0 where
    pub l : ArrayDataSlab E X
    pub r : ArrayDataSlab E X
    pub shares : Rebalances byte_size c x y l r
    pub headers : m.children_headers ≡ set (set a.children_headers k l.header) (suc k) r.header
    pub held_l : view.held s' l.header.slab_id ≡ ok (some (data_slab l))
    pub held_r : view.held s' r.header.slab_id ≡ ok (some (data_slab r))
    pub frame :
        Frames byte_size c storage view lawful address l.header.slab_id r.header.slab_id
          m.header.slab_id s s'

  -- The parent `m` is stored, and the leaves `x` and `y` at `k` and `k + 1` below `a` have become
  -- one.
  pub record Joins (a m : ArrayMetaDataSlab X) (k : ℕ) (x y : ArrayDataSlab E X) (s s' : S)
      : Type 0 where
    pub z : ArrayDataSlab E X
    pub merges : Merges byte_size c x y z
    pub headers : m.children_headers ≡ remove_at (set a.children_headers k z.header) (suc k)
    pub held_z : view.held s' z.header.slab_id ≡ ok (some (data_slab z))
    pub removed : view.held s' y.header.slab_id ≡ ok none
    pub frame :
        Frames byte_size c storage view lawful address z.header.slab_id y.header.slab_id
          m.header.slab_id s s'

  -- What is true of the parent.
  pub record IsParent (a m : ArrayMetaDataSlab X) (s' : S) : Type 0 where
    pub meta : IsMeta m
    pub same : m.header.slab_id ≡ a.header.slab_id
    pub stored : view.held s' m.header.slab_id ≡ ok (some (meta_slab m))

  module _ (a : ArrayMetaDataSlab X) (meta : IsMeta a) (k : ℕ) (x y : ArrayDataSlab E X) (s : S)
      (at_x : get_elem? a.children_headers k ≡ some x.header)
      (at_y : get_elem? a.children_headers (suc k) ≡ some y.header) (lx : IsLeaf byte_size x)
      (ly : IsLeaf byte_size y)
      (apart : AreApart byte_size c storage view lawful address x.header.slab_id y.header.slab_id
        a.header.slab_id s) where
    pub finish_rebalance-Evens :
        (l r : ArrayDataSlab E X)
        → Rebalances byte_size c x y l r
        → (m : ArrayMetaDataSlab X) × (s' : S) × (finish_rebalance byte_size c storage a k
              x.header.count
              (leaf l, leaf r)
              s
            ≡ (ok m, s'))
          × IsParent a m s'
          × Evens a m k x y s s'
    unfolding header_of slab_of
    finish_rebalance-Evens l r h =
        let lengths : length l.elements + length r.elements
            ≡ length x.elements + length y.elements =
          omega (
            arith,
            ap length h.same,
            length-append l.elements r.elements,
            length-append x.elements y.elements,
          ) in
        let (m, run, inv, headers) =
          with_rebalanced_lem a meta k x.header y.header l.header r.header at_x at_y (
            omega (
              arith, lengths, h.left_leaf.counted, h.right_leaf.counted, lx.counted, ly.counted,
            )) in
        let same = with_rebalanced-id a m k x.header.count l.header r.header run in
        let (s', done, hl, hr, hm, frame) =
          finish_rebalance_lem byte_size c storage view lawful address a m k x.header.count (leaf l)
            (leaf r) s run (AreApart-same _ _ _ _ _ _ s h.left_id h.right_id same apart) in
        (
          m,
          s',
          done,
          record { meta = inv; same = same; stored = hm },
          record {
            l = l;
            r = r;
            shares = h;
            headers = headers;
            held_l = hl;
            held_r = hr;
            frame = frame;
          },
        )

    pub merge_pair-Joins :
        Merges byte_size c x y (Rebalance.merge x y)
        → (m : ArrayMetaDataSlab X) × (s' : S) × (merge_pair byte_size c storage a k
              (leaf x)
              (leaf y)
              s
            ≡ (ok m, s'))
          × IsParent a m s'
          × Joins a m k x y s s'
    unfolding header_of slab_of merge_slabs
    merge_pair-Joins h =
        let z = Rebalance.merge x y in
        let lengths : length z.elements ≡ length x.elements + length y.elements =
          ap length h.same ∙ length-append x.elements y.elements in
        let (m, run, inv, headers) =
          with_merged_lem a meta k x.header y.header z.header at_x at_y
            (omega (arith, lengths, h.leaf.counted, lx.counted, ly.counted)) in
        let same = with_merged-id a m k z.header run in
        let (s', done, hz, gone, hm, frame) =
          merge_pair_lem byte_size c storage view lawful address a m k (leaf x) (leaf y) (leaf z) s
            refl run (AreApart-same _ _ _ _ _ _ s h.id refl same apart) in
        (
          m,
          s',
          done,
          record { meta = inv; same = same; stored = hm },
          record {
            z = z;
            merges = h;
            headers = headers;
            held_z = hz;
            removed = gone;
            frame = frame;
          },
        )
