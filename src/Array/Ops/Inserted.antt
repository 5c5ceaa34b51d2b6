-- ===== src/Array/Ops/Inserted.antt =====
-- Insert of an array's slabs (array_data_slab.go, array_metadata_slab.go), down the whole tree.
use atree.Prelude.{
  ℕ, zero, suc, ◌+◌, ◌<◌, ◌≤◌, ◌≡◌, ◌^◌, ◌∙◌, ◌⊎◌, ap, refl, true, false, none, List, length,
  insert_at, arith, inr,
}
use atree.Bytes.{Bytes8}
use atree.Ids.{SlabId}
use atree.Errors.{ok}
use atree.Action.{Action}
use atree.Storage.Interface.{SlabStorage, StorageView, IsLawfulStorage}
use atree.Settings.{Settings, IsSettings}
use atree.Array.Slab.{ArraySlabHeader, Slab}
use atree.Array.Data.{with_inserted}
use atree.Array.Tree.{ArraySlab, node, leaf, header_of, is_inlined, extra_data_of}
use atree.Array.Ops.{insert_in_slab}
use atree.Array.Ops.Under.{Footprint, IsUnder, count-IsUnder, IsUnder-frame}
use atree.Array.Ops.Settle.{Stands}
use atree.Array.Ops.Insert.{insert_leaf}
use atree.Array.Ops.Descend.{descend, ascend, Stands-before, Stands-as}

module _ {E X O S V : Type 0} (byte_size : E → ℕ) (c : Settings)
    (storage : SlabStorage S (Slab E X O)) (storable : Bytes8 → ℕ → V → Action S E)
    (view : StorageView S (Slab E X O)) (lawful : IsLawfulStorage storage view)
    (address : Bytes8) where
  module _ (set : IsSettings c) (value : V) (e : E) (some_size : 0 < byte_size e)
      (small : byte_size e ≤ c.max_inline_array_element_size)
      (made : (t : S) → storable address c.max_inline_array_element_size value t ≡ (ok e, t)) where
    -- In a storage that keeps the promises of IsLawfulStorage, under settings as SetThreshold
    -- computes them, for a value whose storable is an element of one byte to the inline limit that
    -- is made without a change of the storage: on fuel above the depth d of the tree, Insert at a
    -- slab that is neither inlined nor full and stands at the top of a tree of the elements `xs`,
    -- with all IDs of the tree given out, at an index up to the length of `xs`, succeeds, where d
    -- IDs are left at the address, `xs` and one more are below 2 ^ 30 elements, and a tree with
    -- inner nodes is not empty. The slab that comes back stands at the top of a tree of the elements
    -- `xs` with the element inserted at the index, is what the storage holds under the old ID, has
    -- the old extra data, and exceeds the threshold for full slabs by the inline limit at most. At
    -- most d IDs are given out, and every slab under an ID given out before and outside the tree is
    -- held as before.
    pub insert_in_slab_lem :
        (fuel d : ℕ) (s : S) (slab : ArraySlab E X) (xs : List E) (f : Footprint) (index : ℕ)
        → d < fuel
        → IsUnder byte_size c view address s d slab xs f
        → ((j : SlabId) → f j ≡ true → view.used s j ≡ true)
        → is_inlined slab ≡ false
        → (header_of slab).size ≤ c.max_threshold
        → (d ≡ 0) ⊎ (0 < length xs)
        → index ≤ length xs
        → length xs + 1 < 2 ^ 30
        → d ≤ view.room s address
        → (slab' : ArraySlab E X) × (s' : S) × (insert_in_slab byte_size c storage storable fuel
              slab address index value s
            ≡ (ok slab', s'))
          × Stands byte_size c view address d d s s'
              (header_of slab).slab_id
              (extra_data_of slab)
              slab'
              (insert_at xs index e)
              f
    unfolding insert_in_slab IsUnder header_of is_inlined extra_data_of
    insert_in_slab_lem zero d s slab xs f index fuelled u used apart low some_x l few room =
        absurd (omega arith)
    insert_in_slab_lem (suc fuel) zero s (leaf a) xs f index fuelled u used apart low some_x l few
          room =
        let (s', done, st) =
          insert_leaf byte_size c storage storable view lawful address set value e some_size small
            made s a xs f index u used apart low l few in
        (leaf (with_inserted byte_size a index e), s', rw done refl, st)
    insert_in_slab_lem (suc fuel) (suc d) s (leaf a) xs f index fuelled u used apart low some_x l
          few room =
        absurd u
    insert_in_slab_lem (suc fuel) zero s (node a) xs f index fuelled u used apart low some_x l few
          room =
        absurd u
    insert_in_slab_lem (suc fuel) (suc d) s (node a) xs f index fuelled u used apart low some_x l
          few room =
        let (meta, g, own, unshared, children) = u in
        let count : a.header.count ≡ length xs =
          count-IsUnder byte_size c view address s (suc d) (node a) xs f u in
        let some_xs : 0 < length xs = ground (arith, some_x) in
        let q =
          descend byte_size c storage storable view lawful address d s a xs g index meta children
            count some_xs l in
        let p = q.p in
        let (child', s2, down, st) =
          insert_in_slab_lem fuel d q.state p.has.child p.ys p.f_child q.i (omega arith)
            (IsUnder-frame byte_size c view address d s q.state p.has.child p.ys p.f_child
              (λ k m. q.keeps.held k) p.has.below)
            (λ k m. q.keeps.issued.used k ∙ used k (ground (arith, own k, p.all k, m))) p.has.apart
            (omega (arith, p.has.small, ap (λ (i : ArraySlabHeader). i.size) p.has.headed))
            (inr (omega (arith, p.has.filled, q.many))) q.fits_in (omega (arith, q.total))
            (omega (arith, q.keeps.issued.room address)) in
        ascend byte_size c storage storable view lawful address fuel d s s2 a xs f g index value e q
          child' set meta own unshared used low (omega (arith, count)) (omega (arith, count)) room
          down
          (Stands-before byte_size c storage storable view lawful address d d s q.state s2
            q.h.slab_id child' (insert_at p.ys q.i e) p.f_child q.keeps
            (Stands-as byte_size c storage storable view lawful address d d q.state s2
              (header_of p.has.child).slab_id q.h.slab_id (extra_data_of p.has.child) none child'
              (insert_at p.ys q.i e) p.f_child
              (ap (λ (i : ArraySlabHeader). i.slab_id) p.has.headed) p.has.inner st))
