-- ===== src/Array/Ops/Carry.antt =====
-- MergeOrRebalanceChildSlab for a leaf that lacks bytes (array_metadata_slab.go): the child and a
-- sibling share out their elements, or become one.
use atree.Prelude.{
  ℕ, suc, ◌-◌, ◌<◌, ◌≤◌, ◌≡◌, Bool, ◌∙◌, inl, inr, ap, true, false, Option, some, get_elem?, length,
  arith,
}
use atree.Bytes.{Bytes8}
use atree.Errors.{ok}
use atree.Storage.Interface.{SlabStorage, StorageView, IsLawfulStorage}
use atree.Settings.{Settings, IsSettings}
use atree.Array.Slab.{ArrayDataSlab, ArrayMetaDataSlab, Slab}
use atree.Array.Data.{is_underflow}
use atree.Array.Data.Shape.{IsLeaf, AreSized}
use atree.Array.Data.Rebalance
use atree.Array.Data.Rebalance.Lend.{lend_to_right-Rebalances}
use atree.Array.Data.Rebalance.Borrow.{borrow_from_right-Rebalances}
use atree.Array.Data.Rebalance.Merge.{merge_into_left, merge_from_right}
use atree.Array.Meta.Shape.{IsMeta}
use atree.Array.Tree.{
  ArraySlab, leaf, header_of, carry_out, Plan, plan, lend_from_left, borrow_from_right,
  merge_with_left, merge_with_right, stuck, slab_can_lend_to_left, slab_can_lend_to_right,
  lend_slab_to_right, borrow_slab_from_right, merge_or_rebalance_child_slab,
}
use atree.Array.Tree.Siblings.{Fits, plan-Fits}
use atree.Array.Ops.Step.{Keeps, Keeps-trans}
use atree.Array.Ops.Exchange.{AreApart}
use atree.Array.Ops.Restore.{IsParent, finish_rebalance-Evens, merge_pair-Joins}
use atree.Array.Ops.Underflow.{
  leaf_of, leaf_of-some, leaf_of-none, IsSibling, IsLeftSibling, IsRightSibling, Restores, Restored,
  left_sibling_lem, right_sibling_lem, AreApart-Keeps, Restores-Keeps,
}

module _ {E X O S : Type 0} (byte_size : E → ℕ) (c : Settings)
    (storage : SlabStorage S (Slab E X O)) (view : StorageView S (Slab E X O))
    (lawful : IsLawfulStorage storage view) (address : Bytes8) where
  module _ (a : ArrayMetaDataSlab X) (b : ArrayDataSlab E X) (i wanted : ℕ) (s : S)
      (set : IsSettings c) (meta : IsMeta a) (lb : IsLeaf byte_size b)
      (sb : AreSized byte_size c.max_inline_array_element_size b.elements)
      (under : is_underflow c b ≡ some wanted)
      (at_b : get_elem? a.children_headers i ≡ some b.header)
      (left right : Option (ArrayDataSlab E X))
      (on_left : IsLeftSibling byte_size c storage view lawful address a b i s left)
      (on_right : IsRightSibling byte_size c storage view lawful address a b i s right) where
    abbrev test_right : ArraySlab E X → Bool
    test_right n = slab_can_lend_to_right byte_size c n wanted

    abbrev test_left : ArraySlab E X → Bool
    test_left n = slab_can_lend_to_left byte_size c n wanted

    -- One choice of a plan, with the left or the right sibling `n`.
    module _ (n : ArrayDataSlab E X) (t : S)
        (n_is : IsSibling byte_size c storage view lawful address n s)
        (keeps : Keeps byte_size c storage view lawful address s t) where
      abbrev Carries : Plan E X → ℕ → ArrayDataSlab E X → ArrayDataSlab E X → Type 0
      Carries p k x y =
          (m : ArrayMetaDataSlab X) × (s' : S) × (carry_out byte_size c storage a (leaf b) i p t
            ≡ (ok m, s'))
          × IsParent byte_size c storage view lawful address a m s'
          × Restores byte_size c storage view lawful address a b i s m k x y s'

      lend_lem :
          (j : ℕ)
          → i ≡ suc j
          → get_elem? a.children_headers j ≡ some n.header
          → AreApart byte_size c storage view lawful address n.header.slab_id b.header.slab_id
              a.header.slab_id s
          → Rebalance.can_lend_to_right byte_size c n wanted ≡ true
          → Carries (lend_from_left (leaf n)) j n b
      unfolding carry_out lend_slab_to_right header_of
      lend_lem j at e apart can =
          let at_b' : get_elem? a.children_headers (suc j) ≡ some b.header = rw at at at_b in
          let (m, s', run, parent, evens) =
            finish_rebalance-Evens byte_size c storage view lawful address a meta j n b t e at_b'
              n_is.is_leaf lb
              (AreApart-Keeps byte_size c storage view lawful address a n b s t keeps apart) _ _
              (lend_to_right-Rebalances byte_size c n b wanted set n_is.is_leaf lb n_is.sized sb
                n_is.not_full under can) in
          let down : i - 1 ≡ j = omega (arith, at) in
          (
            m,
            s',
            rw down run,
            parent,
            Restores-Keeps byte_size c storage view lawful address a m b i j n b s t s' keeps
                (inl evens),
          )

      borrow_lem :
          get_elem? a.children_headers (suc i) ≡ some n.header
          → AreApart byte_size c storage view lawful address b.header.slab_id n.header.slab_id
              a.header.slab_id s
          → Rebalance.can_lend_to_left byte_size c n wanted ≡ true
          → Carries (borrow_from_right (leaf n)) i b n
      unfolding carry_out borrow_slab_from_right header_of
      borrow_lem e apart can =
          let (m, s', run, parent, evens) =
            finish_rebalance-Evens byte_size c storage view lawful address a meta i b n t at_b e lb
              n_is.is_leaf
              (AreApart-Keeps byte_size c storage view lawful address a b n s t keeps apart) _ _
              (borrow_from_right-Rebalances byte_size c b n wanted set lb n_is.is_leaf sb n_is.sized
                n_is.not_full under can) in
          (
            m,
            s',
            run,
            parent,
            Restores-Keeps byte_size c storage view lawful address a m b i i b n s t s' keeps
                (inl evens),
          )

      join_left_lem :
          (j : ℕ)
          → i ≡ suc j
          → get_elem? a.children_headers j ≡ some n.header
          → AreApart byte_size c storage view lawful address n.header.slab_id b.header.slab_id
              a.header.slab_id s
          → Rebalance.can_lend_to_right byte_size c n wanted ≡ false
          → Carries (merge_with_left (leaf n)) j n b
      unfolding carry_out
      join_left_lem j at e apart refuses =
          let at_b' : get_elem? a.children_headers (suc j) ≡ some b.header = rw at at at_b in
          let (m, s', run, parent, joins) =
            merge_pair-Joins byte_size c storage view lawful address a meta j n b t e at_b'
              n_is.is_leaf lb
              (AreApart-Keeps byte_size c storage view lawful address a n b s t keeps apart)
              (merge_into_left byte_size c b n wanted set lb n_is.is_leaf sb n_is.sized under
                n_is.not_full n_is.enough refuses) in
          let down : i - 1 ≡ j = omega (arith, at) in
          (
            m,
            s',
            rw down run,
            parent,
            Restores-Keeps byte_size c storage view lawful address a m b i j n b s t s' keeps
                (inr joins),
          )

      join_right_lem :
          get_elem? a.children_headers (suc i) ≡ some n.header
          → AreApart byte_size c storage view lawful address b.header.slab_id n.header.slab_id
              a.header.slab_id s
          → Rebalance.can_lend_to_left byte_size c n wanted ≡ false
          → Carries (merge_with_right (leaf n)) i b n
      unfolding carry_out
      join_right_lem e apart refuses =
          let (m, s', run, parent, joins) =
            merge_pair-Joins byte_size c storage view lawful address a meta i b n t at_b e lb
              n_is.is_leaf
              (AreApart-Keeps byte_size c storage view lawful address a b n s t keeps apart)
              (merge_from_right byte_size c b n wanted set lb n_is.is_leaf sb n_is.sized under
                n_is.not_full n_is.enough refuses) in
          (
            m,
            s',
            run,
            parent,
            Restores-Keeps byte_size c storage view lawful address a m b i i b n s t s' keeps
                (inr joins),
          )

    abbrev Done : S → Plan E X → Type 0
    Done t p =
        (m : ArrayMetaDataSlab X) × (s' : S) × (carry_out byte_size c storage a (leaf b) i p t
          ≡ (ok m, s'))
        × IsParent byte_size c storage view lawful address a m s'
        × Restored byte_size c storage view lawful address a b i s left right m s'

    on_left_lem :
        (t : S) (p : ArraySlab E X → Plan E X) (l : ArraySlab E X)
        → leaf_of left ≡ some l
        → ((n : ArrayDataSlab E X) (j : ℕ)
            → l ≡ leaf n
            → left ≡ some n
            → i ≡ suc j
            → get_elem? a.children_headers j ≡ some n.header
            → (n_is : IsSibling byte_size c storage view lawful address n s)
            → AreApart byte_size c storage view lawful address n.header.slab_id b.header.slab_id
                a.header.slab_id s
            → (m : ArrayMetaDataSlab X) × (s' : S) × (carry_out byte_size c storage a
                  (leaf b)
                  i
                  (p (leaf n))
                  t
                ≡ (ok m, s'))
              × IsParent byte_size c storage view lawful address a m s'
              × Restores byte_size c storage view lawful address a b i s m j n b s')
        → Done t (p l)
    on_left_lem t p l same carry =
        let (n, is_left, is_leaf) = leaf_of-some left l same in
        let (j, at, e, n_is, apart) = rw is_left at on_left in
        let (m, s', run, parent, restores) = carry n j is_leaf is_left at e n_is apart in
        (
          m,
          s',
          ap (λ q. carry_out byte_size c storage a (leaf b) i (p q) t) is_leaf ∙ run,
          parent,
          inl (n, j, is_left, at, restores),
        )

    on_right_lem :
        (t : S) (p : ArraySlab E X → Plan E X) (r : ArraySlab E X)
        → leaf_of right ≡ some r
        → ((n : ArrayDataSlab E X)
            → r ≡ leaf n
            → right ≡ some n
            → get_elem? a.children_headers (suc i) ≡ some n.header
            → (n_is : IsSibling byte_size c storage view lawful address n s)
            → AreApart byte_size c storage view lawful address b.header.slab_id n.header.slab_id
                a.header.slab_id s
            → (m : ArrayMetaDataSlab X) × (s' : S) × (carry_out byte_size c storage a
                  (leaf b)
                  i
                  (p (leaf n))
                  t
                ≡ (ok m, s'))
              × IsParent byte_size c storage view lawful address a m s'
              × Restores byte_size c storage view lawful address a b i s m i b n s')
        → Done t (p r)
    on_right_lem t p r same carry =
        let (n, is_right, is_leaf) = leaf_of-some right r same in
        let (within, e, n_is, apart) = rw is_right at on_right in
        let (m, s', run, parent, restores) = carry n is_leaf is_right e n_is apart in
        (
          m,
          s',
          ap (λ q. carry_out byte_size c storage a (leaf b) i (p q) t) is_leaf ∙ run,
          parent,
          inr (n, is_right, restores),
        )

    carry_out-Restored :
        (t : S) (p : Plan E X)
        → 1 < length a.children_headers
        → Keeps byte_size c storage view lawful address s t
        → Fits test_right test_left (leaf_of left) (leaf_of right) p
        → Done t p
    unfolding slab_can_lend_to_right slab_can_lend_to_left
    carry_out-Restored t (lend_from_left l) two keeps fits =
        on_left_lem t lend_from_left l fits.0 (λ n j same is_left at e n_is apart.
          lend_lem n t n_is keeps j at e apart (rw same at (fits.1)))
    carry_out-Restored t (borrow_from_right r) two keeps fits =
        on_right_lem t borrow_from_right r fits.0
          (λ n same is_right e n_is apart. borrow_lem n t n_is keeps e apart (rw same at (fits.1)))
    carry_out-Restored t (merge_with_left l) two keeps fits =
        on_left_lem t merge_with_left l fits.0 (λ n j same is_left at e n_is apart.
          join_left_lem n t n_is keeps j at e apart (rw is_left at (fits.1)))
    carry_out-Restored t (merge_with_right r) two keeps fits =
        on_right_lem t merge_with_right r fits.0 (λ n same is_right e n_is apart.
          join_right_lem n t n_is keeps e apart (rw is_right at (fits.2)))
    carry_out-Restored t stuck two keeps fits =
        let first : i ≡ 0 = rw (leaf_of-none left fits.0) at on_left in
        let last : length a.children_headers ≤ suc i = rw (leaf_of-none right fits.1) at on_right in
        absurd (omega (arith, first, last, two))

    -- MergeOrRebalanceChildSlab on leaves, over a storage that keeps its promises. Let a leaf that
    -- lacks bytes be a child of an inner node with at least two children, where the node, the leaf
    -- and its siblings satisfy the invariants, their elements have legal sizes, the siblings are in
    -- the storage and are neither full nor short of bytes, and the IDs of the child, of each sibling
    -- and of the node have been given out and differ. Then it succeeds, and the node that it leaves
    -- satisfies the invariant and is stored. Either the child and its left or right sibling share
    -- out their elements in order, so that neither is full or short of bytes, and both are stored
    -- and have their headers in the node; or the left one of the two holds the elements of both in
    -- order, is neither full nor short of bytes, is stored, and has the one header in the node in
    -- place of the two, and the right one is removed from the storage. No other slab is changed.
    pub merge_or_rebalance_child_slab_lem :
        1 < length a.children_headers
        → (m : ArrayMetaDataSlab X) × (s' : S) × (merge_or_rebalance_child_slab byte_size c storage
              a
              (leaf b)
              i
              wanted
              s
            ≡ (ok m, s'))
          × IsParent byte_size c storage view lawful address a m s'
          × Restored byte_size c storage view lawful address a b i s left right m s'
    unfolding merge_or_rebalance_child_slab
    merge_or_rebalance_child_slab_lem two =
        let (s1, read_left, keeps_left) =
          left_sibling_lem byte_size c storage view lawful address a b i s left on_left in
        let (s2, read_right, keeps_right) =
          right_sibling_lem byte_size c storage view lawful address a b i s right s1 keeps_left
            on_right in
        let keeps =
          Keeps-trans byte_size c storage view lawful address s s1 s2 keeps_left keeps_right in
        let (m, s', run, parent, restored) =
          carry_out-Restored s2 (plan test_right test_left (leaf_of left) (leaf_of right)) two keeps
            (plan-Fits test_right test_left (leaf_of left) (leaf_of right)) in
        (m, s', rw (read_left, read_right) run, parent, restored)
