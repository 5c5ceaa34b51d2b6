-- ===== src/Array/Ops/Close.antt =====
-- The end of Set, Insert and Remove in an inner node (array_metadata_slab.go): the parent's headers
-- stand for the changed children, and the parent is stored.
use mathlib.Core.Bool.{true≢false}
use mathlib.Core.Path.{subst}
use atree.Prelude.{
  ℕ, suc, ◌≡◌, ◌∙◌, ap, sym, refl, true, false, ◌||◌, ◌&&◌, some, List, ◌++◌, take, drop, arith,
  Bool-cases, inl, inr,
}
use atree.Bytes.{Bytes8}
use atree.Ids.{SlabId, SlabId_eq, SlabId_eq_iff}
use atree.Errors.{ok}
use atree.Storage.Interface.{SlabStorage, StorageView, IsLawfulStorage}
use atree.Storage.Keys.{SlabId_eq_refl}
use atree.Settings.{Settings}
use atree.Array.Slab.{ArraySlabHeader, ArrayMetaDataSlab, Slab, meta_slab}
use atree.Array.Meta.Shape.{IsMeta}
use atree.Array.Tree.{node, header_of, slab_of, store_array_slab}
use atree.Array.Ops.Under.{Footprint, IsUnder, HasChildren-frame, id-outside}
use atree.Array.Ops.Parts.{Kids, Around, replaced}
use atree.Array.Ops.Grows.{Grows, store_array_slab_lem}

module _ {E X O S : Type 0} (byte_size : E → ℕ) (c : Settings)
    (storage : SlabStorage S (Slab E X O)) (view : StorageView S (Slab E X O))
    (lawful : IsLawfulStorage storage view) (address : Bytes8) where
  -- The parent `m` is in place over the changed children.
  pub record Closes (d n : ℕ) (s t : S) (m : ArrayMetaDataSlab X) (xs : List E) (f : Footprint)
      : Type 0 where
    pub f' : Footprint
    pub state : S
    pub done : store_array_slab byte_size c storage (node m) t ≡ (ok tt, state)
    pub below : IsUnder byte_size c view address state (suc d) (node m) xs f'
    pub stored : view.held state m.header.slab_id ≡ ok (some (meta_slab m))
    pub grows : Grows view address n s state f f'

  pub close :
      (d n : ℕ) (s t : S) (a m : ArrayMetaDataSlab X) (j : ℕ) (h : ArraySlabHeader)
      (is : List ArraySlabHeader) (xs zs : List E) (f g k : Footprint)
      (p : Around byte_size c view address d s a.children_headers j h xs g)
      → ((i : SlabId) → f i ≡ (SlabId_eq a.header.slab_id i || g i))
      → g a.header.slab_id ≡ false
      → ((i : SlabId) → f i ≡ true → view.used s i ≡ true)
      → IsMeta m
      → m.header.slab_id ≡ a.header.slab_id
      → m.children_headers ≡ take j a.children_headers ++ (is ++ drop (suc j) a.children_headers)
      → Kids byte_size c view address d t is zs k
      → Grows view address n s t p.f_child k
      → Closes d n s t m (p.lead ++ (zs ++ p.rest)) f
  unfolding IsUnder header_of slab_of
  close d n s t a m j h is xs zs f g k p own unshared used meta same headers new grows =
      let o = m.header.slab_id in
      let in_own : f o ≡ true = ground (arith, own o, SlabId_eq_iff a.header.slab_id o, same) in
      let (t', done, w) =
        store_array_slab_lem byte_size c storage view lawful address (node m) t
          (grows.kept o (used o in_own)) in
      let g' : Footprint = λ i. p.f_lead i || (k i || p.f_rest i) in
      let f' : Footprint = λ i. SlabId_eq o i || g' i in
      let unshared' : g o ≡ false = ap g same ∙ unshared in
      let new_outside : k o ≡ false = elim (Bool-cases (k o)) [
        | inr out ↦ out
        | inl in_k ↦ absurd (
            true≢false
              (sym (used o in_own) ∙ grows.fresh o in_k (ground (arith, unshared', p.all o))))
      ] in
      let not_own : (i : SlabId) → g i ≡ true → SlabId_eq o i ≡ false =
        λ i in_g. ground (arith, id-outside o g unshared' i, in_g) in
      let steady : (i : SlabId)
          → g i ≡ true
          → p.f_child i ≡ false
          → view.held t' i ≡ view.held s i =
        λ i in_g out.
          w.held i
          ∙ (rw (not_own i in_g) refl ∙ grows.frame i (used i (ground (arith, own i, in_g))) out) in
      let not_own_new : (i : SlabId) → k i ≡ true → SlabId_eq o i ≡ false =
        λ i in_k. ground (arith, id-outside o k new_outside i, in_k) in
      let self : SlabId_eq o o ≡ true = SlabId_eq_refl o in
      let not_at_own : (i : SlabId) → f i ≡ false → SlabId_eq o i ≡ false =
        λ i out. ap (λ q. SlabId_eq q i) same ∙ ground (arith, own i, out) in
      let others : (i : SlabId) → ((p.f_lead i || p.f_rest i) && k i) ≡ false = λ i.
        elim (Bool-cases (k i)) [
          | inr out ↦ ground (arith, out)
          | inl in_k ↦ elim (Bool-cases (p.f_child i)) [
            | inl child ↦ ground (arith, child, p.apart_lead i, p.apart_child i)
            | inr other ↦ ground (arith, grows.fresh i in_k other, used i, own i, p.all i)
          ]
        ] in
      let og : (i : SlabId) → SlabId_eq o i ≡ SlabId_eq a.header.slab_id i =
        λ i. ap (λ q. SlabId_eq q i) same in
      let new_kept : (i : SlabId) → k i ≡ true → view.held t' i ≡ view.held t i =
        λ i in_k. w.held i ∙ rw (not_own_new i in_k) refl in
      record {
        f' = f';
        state = t';
        done = done;
        below = (
          meta,
          g',
          λ i. refl,
          ground (arith, new_outside, unshared', p.all o),
          subst (λ hs. Kids byte_size c view address d t' hs (p.lead ++ (zs ++ p.rest)) g')
              (sym headers)
              (replaced byte_size c view address d s t' a.children_headers is j h xs zs g k g' p
                (HasChildren-frame byte_size c view address d s t' (take j a.children_headers)
                  p.lead p.f_lead
                  (λ i m. steady i (ground (arith, p.all i, m)) (ground (arith, p.apart_lead i, m)))
                  p.front)
                (HasChildren-frame byte_size c view address d s t' (drop (suc j) a.children_headers)
                  p.rest p.f_rest
                  (λ i m.
                    steady i (ground (arith, p.all i, m)) (ground (arith, p.apart_child i, m)))
                  p.back)
                (HasChildren-frame byte_size c view address d t t' is zs k new_kept new) (λ i. refl)
                others),
        );
        stored = w.held o ∙ rw (self) refl;
        grows = record {
          frame = λ i u out.
              w.held i
              ∙ (rw (not_at_own i out) refl
                  ∙ grows.frame i u (ground (arith, own i, p.all i, out)));
          fresh = λ i in_f out.
              grows.fresh i (ground (arith, own i, p.all i, og i, in_f, out))
                (ground (arith, own i, p.all i, out));
          kept = λ i u. w.used i ∙ grows.kept i u;
          taken = λ i in_f.
              ground
                (arith, og i, own i, p.all i, used i, grows.kept i, grows.taken i, w.used i, in_f);
          room = omega (arith, w.room address, grows.room);
        };
      }
