-- ===== src/Array/Ops/Pair.antt =====
-- The two halves of a full child, stored (array_metadata_slab.go, SplitChildSlab).
use mathlib.Core.Bool.{true≢false}
use mathlib.Core.List.{append-nil}
use atree.Prelude.{
  ℕ, ◌+◌, ◌<◌, ◌≤◌, ◌≡◌, ◌∙◌, ap, sym, refl, true, false, ◌||◌, none, some, List, [], ◌∷◌, length,
  length-append, arith, Bool-cases, inl, inr,
}
use atree.Bytes.{Bytes8}
use atree.Ids.{SlabId, SlabId_eq, SlabId_eq_iff}
use atree.Errors.{ok}
use atree.Storage.Keys.{SlabId_eq_comm}
use atree.Storage.Interface.{SlabStorage, StorageView, IsLawfulStorage}
use atree.Settings.{Settings, IsSettings}
use atree.Array.Slab.{Slab}
use atree.Array.Tree.{
  ArraySlab, header_of, slab_of, store_array_slab, split_slab, is_inlined, extra_data_of,
}
use atree.Array.Ops.{slab_is_full}
use atree.Array.Ops.Under.{Footprint, IsUnder, count-IsUnder, own-IsUnder, IsUnder-frame_below}
use atree.Array.Ops.Parts.{Kids, Kid}
use atree.Array.Ops.Halve.{IsHalf}
use atree.Array.Ops.Grows.{Grows, Writes-other, Writes-self, store_array_slab_lem, split_slab_lem}

-- An ID in a set differs from one outside.
pub apart_of : (f : Footprint) (i j : SlabId) → f i ≡ true → f j ≡ false → SlabId_eq i j ≡ false
apart_of f i j h k = elim (Bool-cases (SlabId_eq i j)) [
  | inr other ↦ other
  | inl same ↦ absurd (true≢false (sym h ∙ (ap f ((SlabId_eq_iff i j).0 same) ∙ k)))
]

module _ {E X O S : Type 0} (byte_size : E → ℕ) (c : Settings)
    (storage : SlabStorage S (Slab E X O)) (view : StorageView S (Slab E X O))
    (lawful : IsLawfulStorage storage view) (address : Bytes8) where
  -- A slab with its tree, in a state that holds it.
  pub Kid-IsHalf :
      (d : ℕ) (s t : S) (id : SlabId) (slab : ArraySlab E X) (ys : List E) (f : Footprint)
      → IsHalf byte_size c view address d s id slab ys f
      → id.address ≡ address
      → view.held t id ≡ ok (some (slab_of slab))
      → ((i : SlabId) → f i ≡ true → SlabId_eq id i ≡ false → view.held t i ≡ view.held s i)
      → Kid byte_size c view address d t (header_of slab) ys f
  Kid-IsHalf d s t id slab ys f h placed stored agree = record {
    child = slab;
    stored = ap (view.held t) h.own ∙ stored;
    headed = refl;
    filled = omega (arith, h.filled, count-IsUnder byte_size c view address s d slab ys f h.below);
    small = h.small;
    inner = h.inner;
    apart = h.apart;
    placed = ap (λ (i : SlabId). i.address) h.own ∙ placed;
    below =
        IsUnder-frame_below byte_size c view address d s t slab ys f
          (λ i m o. agree i m (ap (λ j. SlabId_eq j i) (sym h.own) ∙ o)) h.below;
  }

  -- The halves of `child` are stored, and are the children of their headers.
  pub record Pairs (d : ℕ) (s : S) (child : ArraySlab E X) (zs : List E) (f : Footprint)
      : Type 0 where
    pub l : ArraySlab E X
    pub r : ArraySlab E X
    pub split_state : S
    pub left_state : S
    pub state : S
    pub split : split_slab byte_size c storage child s ≡ (ok (l, r), split_state)
    pub left : store_array_slab byte_size c storage l split_state ≡ (ok tt, left_state)
    pub right : store_array_slab byte_size c storage r left_state ≡ (ok tt, state)
    pub counts : (header_of child).count ≡ (header_of l).count + (header_of r).count
    pub k : Footprint
    pub kids : Kids byte_size c view address d state (header_of l ∷ header_of r ∷ []) zs k
    pub grows : Grows view address 1 s state f k

  pub split_kids :
      (d : ℕ) (s : S) (child : ArraySlab E X) (zs : List E) (f : Footprint)
      → IsSettings c
      → IsUnder byte_size c view address s d child zs f
      → ((j : SlabId) → f j ≡ true → view.used s j ≡ true)
      → (header_of child).slab_id.address ≡ address
      → extra_data_of child ≡ none
      → is_inlined child ≡ false
      → slab_is_full c child ≡ true
      → (header_of child).size ≤ c.max_threshold + c.max_inline_array_element_size + 16
      → 0 < view.room s address
      → Pairs d s child zs f
  split_kids d s child zs f set u used placed inner apart full room left =
      let (l, r, id, s3, split, issues, h) =
        split_slab_lem byte_size c storage view lawful address d s child zs f set u used placed
          inner apart full room left in
      let own = (header_of child).slab_id in
      let in_own : f own ≡ true = own-IsUnder byte_size c view address s d child zs f u in
      let in_left : h.f_left own ≡ true =
        ap h.f_left (sym h.left.own)
        ∙ own-IsUnder byte_size c view address s d l h.ys_left h.f_left h.left.below in
      let in_right : h.f_right id ≡ true =
        ap h.f_right (sym h.right.own)
        ∙ own-IsUnder byte_size c view address s d r h.ys_right h.f_right h.right.below in
      let used_own = used own in_own in
      let differ : SlabId_eq id own ≡ false =
        SlabId_eq_comm id own ∙ apart_of (view.used s) own id used_own issues.fresh in
      let (s4, left_done, w1) =
        store_array_slab_lem byte_size c storage view lawful address l s3
          (ap (view.used s3) h.left.own ∙ issues.kept own used_own) in
      let (s5, right_done, w2) =
        store_array_slab_lem byte_size c storage view lawful address r s4
          (w1.used (header_of r).slab_id ∙ (ap (view.used s3) h.right.own ∙ issues.taken)) in
      let steady : (i : SlabId)
          → SlabId_eq own i ≡ false
          → SlabId_eq id i ≡ false
          → view.held s5 i ≡ view.held s i =
        λ i not_own not_id.
          Writes-other byte_size c storage view lawful address r s4 s5 id i w2 h.right.own not_id
          ∙ (Writes-other byte_size c storage view lawful address l s3 s4 own i w1 h.left.own
                not_own
              ∙ issues.held i) in
      let held_left : view.held s5 own ≡ ok (some (slab_of l)) =
        Writes-other byte_size c storage view lawful address r s4 s5 id own w2 h.right.own differ
        ∙ Writes-self byte_size c storage view lawful address l s3 s4 own w1 h.left.own in
      let held_right : view.held s5 id ≡ ok (some (slab_of r)) =
        Writes-self byte_size c storage view lawful address r s4 s5 id w2 h.right.own in
      let k : Footprint = λ i. h.f_left i || h.f_right i in
      let now : (i : SlabId) → view.used s5 i ≡ view.used s3 i = λ i. w2.used i ∙ w1.used i in
      let is_new : (i : SlabId) → SlabId_eq id i ≡ true → id ≡ i = λ i. (SlabId_eq_iff id i).0 in
      record {
        l = l;
        r = r;
        split_state = s3;
        left_state = s4;
        state = s5;
        split = split;
        left = left_done;
        right = right_done;
        counts = omega (
          arith,
          count-IsUnder byte_size c view address s d child zs f u,
          count-IsUnder byte_size c view address s d l h.ys_left h.f_left h.left.below,
          count-IsUnder byte_size c view address s d r h.ys_right h.f_right h.right.below,
          length-append h.ys_left h.ys_right,
          ap length h.parts,
        );
        k = k;
        kids = (
          h.ys_left,
          h.ys_right,
          h.f_left,
          h.f_right,
          Kid-IsHalf d s s5 own l h.ys_left h.f_left h.left placed held_left (λ i m o.
              steady i o (apart_of h.f_right id i in_right (ground (arith, h.apart i, m)))),
          (
            h.ys_right,
            [],
            h.f_right,
            λ _. false,
            Kid-IsHalf d s s5 id r h.ys_right h.f_right h.right issues.at_address held_right
                (λ i m o.
                  steady i (apart_of h.f_left own i in_left (ground (arith, h.apart i, m))) o),
            (refl, λ _. refl),
            sym (append-nil h.ys_right),
            record { all = λ i. ground arith; apart = λ i. ground arith },
          ),
          h.parts,
          record { all = λ i. refl; apart = h.apart },
        );
        grows = record {
          frame = λ i m out.
              steady i (apart_of f own i in_own out)
                (SlabId_eq_comm id i ∙ apart_of (view.used s) i id m issues.fresh);
          fresh = λ i m out.
              ap (view.used s) (sym (is_new i (ground (arith, h.all i, m, out)))) ∙ issues.fresh;
          kept = λ i m. now i ∙ issues.kept i m;
          taken = λ i m. now i ∙ elim (Bool-cases (f i)) [
            | inl inside ↦ issues.kept i (used i inside)
            | inr out ↦
                ap (view.used s3) (sym (is_new i (ground (arith, h.all i, m, out)))) ∙ issues.taken
          ];
          room = omega (arith, issues.room, w1.room address, w2.room address);
        };
      }
