-- ===== src/Array/Root/Grow.antt =====
-- splitRoot (array.go): the two halves of a full root stand below a new one.
use mathlib.Core.Bool.{true≢false}
use atree.Prelude.{
  Option, ℕ, suc, ◌+◌, ◌≤◌, ◌<◌, ◌≡◌, ◌^◌, ◌∙◌, ap, sym, refl, true, false, ◌||◌, some, List,
  length, add32, add32_lem, arith, Bool-cases, inl, inr,
}
use atree.Bytes.{Bytes8}
use atree.Ids.{SlabId, SlabId_eq, SlabId_eq_iff}
use atree.SlabId.{ValueId}
use atree.Errors.{ok, wrap_result}
use atree.Action.{Action, pure, bind-ok}
use atree.Storage.Keys.{SlabId_eq_refl}
use atree.Storage.Interface.{SlabStorage, StorageView, Issues, IsLawfulStorage}
use atree.Settings.{Settings, IsSettings}
use atree.Array.Slab.{ArraySlabHeader, ArrayMetaDataSlab, Slab}
use atree.Array.Meta.{count_sums}
use atree.Array.Meta.Shape.{IsMeta}
use atree.Array.Tree.{
  ArraySlab, node, header_of, slab_of, is_inlined, extra_data_of, split_slab, store_array_slab,
}
use atree.Array.Ops.{slab_is_full}
use atree.Array.Ops.Under.{
  Footprint, IsUnder, count-IsUnder, IsUnder-frame, HasChildren-frame, id-outside,
}
use atree.Array.Ops.Parts.{Kids}
use atree.Array.Ops.Grows.{Grows, Grows-trans, store_array_slab_lem, Writes-other, Writes-self}
use atree.Array.Ops.Pair.{split_kids}
use atree.Array.Ops.Settle.{Stands}
use atree.Array.Root.{Array, root_over, split_root, address as address_of}
use atree.Array.Root.Demote.{old_root, demote}

root_over-IsMeta :
    {X : Type 0} (id : SlabId) (x : Option X) (l r : ArraySlabHeader)
    → l.count + r.count < 2 ^ 31
    → IsMeta (root_over id x l r)
unfolding root_over count_sums
root_over-IsMeta id x l r few =
    let both : add32 l.count r.count ≡ l.count + r.count = add32_lem _ _ (omega arith) in
    let first : add32 0 l.count ≡ l.count = add32_lem _ _ (omega arith) ∙ omega arith in
    record {
      sized = refl;
      counted = omega (arith, both);
      summed = rw first refl;
      fits = omega arith;
      few = omega (arith, both);
    }

module _ {E X O S V : Type 0} (byte_size : E → ℕ) (c : Settings)
    (storage : SlabStorage S (Slab E X O)) (storable : Bytes8 → ℕ → V → Action S E)
    (value_id : V → Option ValueId) (stored_value : E → Action S V)
    (view : StorageView S (Slab E X O)) (lawful : IsLawfulStorage storage view)
    (address : Bytes8) where
  -- The new root.
  abbrev new_root : Array E X S → ArraySlab E X → ArraySlab E X → ArrayMetaDataSlab X
  new_root a l r =
      root_over (header_of a.root).slab_id (extra_data_of a.root) (header_of l) (header_of r)

  split_root-done :
      (a : Array E X S) (id : SlabId) (l r : ArraySlab E X) (s s1 s2 s3 s4 s5 : S)
      → storage.generate_slab_id (address_of a) s ≡ (ok id, s1)
      → split_slab byte_size c storage (old_root id a.root) s1 ≡ (ok (l, r), s2)
      → store_array_slab byte_size c storage l s2 ≡ (ok tt, s3)
      → store_array_slab byte_size c storage r s3 ≡ (ok tt, s4)
      → store_array_slab byte_size c storage (node (new_root a l r)) s4 ≡ (ok tt, s5)
      → split_root byte_size c storage storable value_id stored_value a s
        ≡ (ok (record a { root = node (new_root a l r) }), s5)
  unfolding split_root old_root wrap_result
  split_root-done a id l r s s1 s2 s3 s4 s5 generated split left right done =
      rw (generated, split)
        (bind-ok (store_array_slab byte_size c storage l) _ tt s2 s3 left
          ∙ (bind-ok (store_array_slab byte_size c storage r) _ tt s3 s4 right
              ∙ bind-ok (store_array_slab byte_size c storage (node (new_root a l r)))
                  (λ _. pure (record a { root = node (new_root a l r) })) tt s4 s5 done))

  -- A new root `m` in place over two children with all slabs of the tree but the old root's ID.
  crown :
      (d n : ℕ) (s t : S) (m : ArrayMetaDataSlab X) (xs : List E) (f g k : Footprint)
      → ((i : SlabId) → f i ≡ (SlabId_eq m.header.slab_id i || g i))
      → g m.header.slab_id ≡ false
      → ((i : SlabId) → f i ≡ true → view.used s i ≡ true)
      → IsMeta m
      → Kids byte_size c view address d t m.children_headers xs k
      → Grows view address n s t g k
      → (s' : S) × (store_array_slab byte_size c storage (node m) t ≡ (ok tt, s'))
        × (f' : Footprint) × IsUnder byte_size c view address s' (suc d) (node m) xs f'
        × (view.held s' m.header.slab_id ≡ ok (some (slab_of (node m))))
        × Grows view address n s s' f f'
  unfolding IsUnder header_of slab_of
  crown d n s t m xs f g k own unshared used meta kids grows =
      let o = m.header.slab_id in
      let in_own : f o ≡ true = ground (arith, own o, SlabId_eq_refl o) in
      let (s', done, w) =
        store_array_slab_lem byte_size c storage view lawful address (node m) t
          (grows.kept o (used o in_own)) in
      let outside : k o ≡ false = elim (Bool-cases (k o)) [
        | inr out ↦ out
        | inl in_k ↦ absurd (true≢false (sym (used o in_own) ∙ grows.fresh o in_k unshared))
      ] in
      let f' : Footprint = λ i. SlabId_eq o i || k i in
      let other : (i : SlabId) → SlabId_eq o i ≡ false → view.held s' i ≡ view.held t i =
        λ i no. Writes-other byte_size c storage view lawful address (node m) t s' o i w refl no in
      (
        s',
        done,
        f',
        (
          meta,
          k,
          λ i. refl,
          outside,
          HasChildren-frame byte_size c view address d t s' m.children_headers xs k
              (λ i in_k. other i (ground (arith, id-outside o k outside i, in_k))) kids,
        ),
        Writes-self byte_size c storage view lawful address (node m) t s' o w refl,
        record {
          frame = λ i u out.
              other i (ground (arith, own i, out)) ∙ grows.frame i u (ground (arith, own i, out));
          fresh = λ i in_f out.
              grows.fresh i (ground (arith, own i, in_f, out)) (ground (arith, own i, out));
          kept = λ i u. w.used i ∙ grows.kept i u;
          taken =
              λ i in_f. ground (arith, own i, used i, grows.kept i, grows.taken i, w.used i, in_f);
          room = omega (arith, w.room address, grows.room);
        },
      )

  -- A new ID.
  issue :
      (s s1 : S) (id : SlabId) (g : Footprint)
      → Issues view address id s s1
      → ((i : SlabId) → g i ≡ true → view.used s i ≡ true)
      → Grows view address 1 s s1 g (λ i. SlabId_eq id i || g i)
  issue s s1 id g issues used =
      let is_new : (i : SlabId) → SlabId_eq id i ≡ true → id ≡ i = λ i. (SlabId_eq_iff id i).0 in
      record {
        frame = λ i u out. issues.held i;
        fresh =
            λ i m out. ap (view.used s) (sym (is_new i (ground (arith, m, out)))) ∙ issues.fresh;
        kept = issues.kept;
        taken = λ i m. elim (Bool-cases (g i)) [
          | inl inside ↦ issues.kept i (used i inside)
          | inr out ↦ ap (view.used s1) (sym (is_new i (ground (arith, m, out)))) ∙ issues.taken
        ];
        room = omega (arith, issues.room);
      }

  pub split_root_lem :
      (d : ℕ) (s : S) (a : Array E X S) (x : X) (xs : List E) (f : Footprint)
      → IsSettings c
      → IsUnder byte_size c view address s d a.root xs f
      → ((j : SlabId) → f j ≡ true → view.used s j ≡ true)
      → address_of a ≡ address
      → extra_data_of a.root ≡ some x
      → is_inlined a.root ≡ false
      → slab_is_full c a.root ≡ true
      → (header_of a.root).size ≤ c.max_threshold + c.max_inline_array_element_size
      → length xs < 2 ^ 30
      → 2 ≤ view.room s address
      → (m : ArrayMetaDataSlab X) × (s' : S) × (split_root byte_size c storage storable value_id
            stored_value a s
          ≡ (ok (record a { root = node m }), s'))
        × Stands byte_size c view address
            (suc d)
            2
            s
            s'
            (header_of a.root).slab_id
            (some x)
            (node m)
            xs
            f
        × (m.header.size ≤ c.max_threshold)
  unfolding root_over header_of extra_data_of is_inlined
  split_root_lem d s a x xs f set u used placed extra apart full room few left =
      let (id, s1, generated, issues) = lawful.generate-Issues address s (omega arith) in
      let fresh : f id ≡ false = ground (arith, used id, issues.fresh) in
      let dm =
        demote byte_size c view address d s1 id a.root xs f x set
          (IsUnder-frame byte_size c view address d s s1 a.root xs f (λ j m. issues.held j) u) extra
          apart full room fresh in
      let grow1 = issue s s1 id dm.g issues (λ i m. used i (ground (arith, dm.all i, m))) in
      let q =
        split_kids byte_size c storage view lawful address d s1 (old_root id a.root) xs
          (λ i. SlabId_eq id i || dm.g i) set dm.below grow1.taken
          (ap (λ (i : SlabId). i.address) dm.own ∙ issues.at_address) dm.extra dm.apart dm.full
          (omega (arith, dm.size, room)) (omega (arith, issues.room)) in
      let grow2 =
        Grows-trans view address 1 1 s s1 q.state dm.g (λ i. SlabId_eq id i || dm.g i) q.k grow1
          q.grows in
      let total : (header_of q.l).count + (header_of q.r).count ≡ length xs =
        sym q.counts
        ∙ count-IsUnder byte_size c view address s1 d (old_root id a.root) xs
            (λ i. SlabId_eq id i || dm.g i) dm.below in
      let (s', done, f', below, stored, grows) =
        crown d 2 s q.state (new_root a q.l q.r) xs f dm.g q.k dm.all dm.unshared used
          (root_over-IsMeta (header_of a.root).slab_id (extra_data_of a.root) (header_of q.l)
            (header_of q.r) (omega (arith, total)))
          q.kids grow2 in
      (
        new_root a q.l q.r,
        s',
        split_root-done a id q.l q.r s s1 q.split_state q.left_state q.state s'
            (ap (λ b. storage.generate_slab_id b s) placed ∙ generated) q.split q.left q.right done,
        record {
          f' = f';
          below = below;
          stored = stored;
          own = refl;
          extra = extra;
          apart = refl;
          size = omega (arith, set.least, set.upper);
          grows = grows;
        },
        omega (arith, set.least, set.upper),
      )
