-- ===== src/Array/Root/Insert.antt =====
-- Insert and Append of an array (array.go) on the sequence of its elements.
use mathlib.Core.Path.{subst}
use atree.Prelude.{
  ℕ, suc, ◌+◌, ◌≤◌, ◌<◌, ◌≡◌, ◌^◌, ◌∙◌, ◌⊎◌, ap, sym, refl, true, false, none, some, Option, List,
  length, insert_at, arith, inr,
}
use atree.Bytes.{Bytes8}
use atree.Ids.{SlabId}
use atree.SlabId.{ValueId}
use atree.Errors.{ok}
use atree.Action.{Action}
use atree.Storage.Interface.{SlabStorage, StorageView, IsLawfulStorage}
use atree.Settings.{Settings, IsSettings}
use atree.Array.Slab.{Slab}
use atree.Array.Tree.{ArraySlab, header_of, slab_of, is_inlined, extra_data_of}
use atree.Array.Ops.{insert_in_slab}
use atree.Array.Ops.Under.{Footprint, IsUnder, count-IsUnder}
use atree.Array.Ops.Grows.{Grows}
use atree.Array.Ops.Inserted.{insert_in_slab_lem}
use atree.Array.Ops.Descend.{Stands-as, length-insert_at}
use atree.Array.Root.{
  Array, put_index, split_root_if_full, insert_value, increment_index_from, notify_parent_if_needed,
  set_callback_with_child, address as address_of,
}
use atree.Array.Root.Settle.{settle_root}
use atree.Array.Root.Index.{
  AreBelow, moved_up, increment_entries_lem, AreBelow-moved_up, AreBelow-put_index,
}

module _ {E X O S V : Type 0} (byte_size : E → ℕ) (c : Settings)
    (storage : SlabStorage S (Slab E X O)) (storable : Bytes8 → ℕ → V → Action S E)
    (value_id : V → Option ValueId) (stored_value : E → Action S V)
    (view : StorageView S (Slab E X O)) (lawful : IsLawfulStorage storage view)
    (address : Bytes8) where
  -- An array without a parent, in a storage, with the elements `xs` and the IDs `f`.
  pub record IsArray (s : S) (d : ℕ) (a : Array E X S) (x : X) (xs : List E) (f : Footprint)
      : Type 0 where
    pub under : IsUnder byte_size c view address s d a.root xs f
    pub used : (j : SlabId) → f j ≡ true → view.used s j ≡ true
    pub placed : address_of a ≡ address
    pub extra : extra_data_of a.root ≡ some x
    pub apart : is_inlined a.root ≡ false
    pub small : (header_of a.root).size ≤ c.max_threshold
    pub some_elements : (d ≡ 0) ⊎ (0 < length xs)
    pub no_parent : a.parent_updater ≡ none
    pub below : AreBelow (length xs) a.mutable_element_index

  insert_value-done :
      (fuel n index : ℕ) (value : V) (a : Array E X S) (root r : ArraySlab E X) (s s1 s2 : S)
      → insert_in_slab byte_size c storage storable fuel a.root (address_of a) index value s
        ≡ (ok root, s1)
      → split_root_if_full byte_size c storage storable value_id stored_value
          (record a { root = root })
          s1
        ≡ (ok (record a { root = r }), s2)
      → (header_of r).count ≡ n + 1
      → AreBelow n a.mutable_element_index
      → n < 2 ^ 30
      → a.parent_updater ≡ none
      → insert_value byte_size c storage storable value_id stored_value fuel a index value s ≡ (
        ok (
            set_callback_with_child byte_size c storage storable value_id stored_value index value
              (record a {
                root = r;
                mutable_element_index = moved_up index a.mutable_element_index;
              })),
        s2,
      )
  unfolding insert_value increment_index_from notify_parent_if_needed
  insert_value-done fuel n index value a root r s s1 s2 inserted split counted below few alone =
      rw
        (
          inserted,
          split,
          counted,
          increment_entries_lem n index a.mutable_element_index below (omega arith),
          alone,
        )
        refl

  -- The index entry of the value leaves the rest of the array as it is.
  callback_by :
      (found : Option ValueId) (index : ℕ) (value : V) (s : S) (d : ℕ) (a : Array E X S) (x : X)
      (xs : List E) (f : Footprint)
      → value_id value ≡ found
      → index < length xs
      → IsArray s d a x xs f
      → (a' : Array E X S) × (set_callback_with_child byte_size c storage storable value_id
            stored_value index value a
          ≡ a')
        × IsArray s d a' x xs f
        × (a'.root ≡ a.root)
  unfolding set_callback_with_child
  callback_by none index value s d a x xs f e l h =
      (a, rw (set_callback_with_child, e) refl, h, refl)
  callback_by (some vid) index value s d a x xs f e l h = (
    record a { mutable_element_index = put_index vid index a.mutable_element_index },
    rw (set_callback_with_child, e) refl,
    record {
      under = h.under;
      used = h.used;
      placed = h.placed;
      extra = h.extra;
      apart = h.apart;
      small = h.small;
      some_elements = h.some_elements;
      no_parent = h.no_parent;
      below = AreBelow-put_index (length xs) index vid a.mutable_element_index h.below l;
    },
    refl,
  )

  module _ (set : IsSettings c) (value : V) (e : E) (some_size : 0 < byte_size e)
      (small : byte_size e ≤ c.max_inline_array_element_size)
      (made : (t : S) → storable address c.max_inline_array_element_size value t ≡ (ok e, t)) where
    -- In a storage that keeps the promises of IsLawfulStorage, under settings as SetThreshold computes
    -- them, for a value whose storable is an element of one byte to the inline limit that is made
    -- without a change of the storage: Insert at an index up to the length of `xs` into an array
    -- without a parent, with a tree of depth d and the elements `xs`, on fuel above d, with d + 2 IDs
    -- left at the address and `xs` and one more below 2 ^ 30 elements, succeeds. It leaves such an
    -- array of `xs` with the element inserted at the index, with a root that is not full, is what the
    -- storage holds under the old root's ID, and stands over a tree of depth d + 1 at most. At most
    -- d + 2 IDs are given out, and every slab under an ID given out before and outside the tree is
    -- held as before.
    pub insert_value_lem :
        (fuel d : ℕ) (s : S) (a : Array E X S) (x : X) (xs : List E) (f : Footprint) (index : ℕ)
        → IsArray s d a x xs f
        → d < fuel
        → index ≤ length xs
        → length xs + 1 < 2 ^ 30
        → d + 2 ≤ view.room s address
        → (a' : Array E X S) × (d' : ℕ) × (s' : S) × (f' : Footprint) × (insert_value byte_size c
              storage storable value_id stored_value fuel a index value s
            ≡ (ok a', s'))
          × IsArray s' d' a' x (insert_at xs index e) f'
          × (view.held s' (header_of a.root).slab_id ≡ ok (some (slab_of a'.root)))
          × ((header_of a'.root).slab_id ≡ (header_of a.root).slab_id)
          × Grows view address (d + 2) s s' f f'
          × (d' ≤ suc d)
    insert_value_lem fuel d s a x xs f index h fuelled l few room =
        let (root, s1, inserted, st) =
          insert_in_slab_lem byte_size c storage storable view lawful address set value e some_size
            small made fuel d s a.root xs f index fuelled h.under h.used h.apart h.small
            h.some_elements l few (omega arith) in
        let long = length-insert_at xs index e l in
        let (r, d', s2, split, st', low, deep) =
          settle_root byte_size c storage storable value_id stored_value view lawful address d d s
            s1 (record a { root = root }) (header_of a.root).slab_id x (insert_at xs index e) f set
            (Stands-as byte_size c storage storable view lawful address d d s s1
              (header_of a.root).slab_id (header_of a.root).slab_id (extra_data_of a.root) (some x)
              root (insert_at xs index e) f refl h.extra st)
            h.placed (omega (arith, long)) (omega (arith, st.grows.room)) in
        let counted : (header_of r).count ≡ length xs + 1 =
          count-IsUnder byte_size c view address s2 d' r (insert_at xs index e) st'.f' st'.below
          ∙ long in
        let a2 : Array E X S = record a {
          root = r;
          mutable_element_index = moved_up index a.mutable_element_index;
        } in
        let done =
          insert_value-done fuel (length xs) index value a root r s s1 s2
            (ap (λ b. insert_in_slab byte_size c storage storable fuel a.root b index value s)
                h.placed
              ∙ inserted)
            split counted h.below (omega arith) h.no_parent in
        let next : IsArray s2 d' a2 x (insert_at xs index e) st'.f' = record {
          under = st'.below;
          used = st'.grows.taken;
          placed = ap (λ (i : SlabId). i.address) st'.own ∙ h.placed;
          extra = st'.extra;
          apart = st'.apart;
          small = low;
          some_elements = inr (omega (arith, long));
          no_parent = h.no_parent;
          below =
              subst (λ n. AreBelow n (moved_up index a.mutable_element_index)) (sym long)
                (AreBelow-moved_up (length xs) index a.mutable_element_index h.below);
        } in
        let (a', same, good, top) =
          callback_by (value_id value) index value s2 d' a2 x (insert_at xs index e) st'.f' refl
            (omega (arith, long, l)) next in
        (
          a',
          d',
          s2,
          st'.f',
          done ∙ ap (λ b. (ok b, s2)) same,
          good,
          st'.stored ∙ ap (λ b. ok (some (slab_of b))) (sym top),
          ap (λ b. (header_of b).slab_id) top ∙ st'.own,
          st'.grows,
          deep,
        )
