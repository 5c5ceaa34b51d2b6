-- ===== src/Array/Root/Demote.antt =====
-- The old root in splitRoot (array.go): under a new ID, without extra data, with the size of a slab
-- below a root.
use atree.Prelude.{
  ℕ, zero, suc, ◌+◌, ◌-◌, ◌%◌, sum_by, u32_mod, ◌≤◌, ◌<◌, ◌≡◌, ◌∙◌, ap, refl, true, false, ◌||◌,
  none, some, List, add32, sub32, add32_lem, sub32_lem, ltb, arith,
}
use atree.Bytes.{Bytes8}
use atree.Ids.{SlabId, SlabId_eq}
use atree.Storage.Interface.{StorageView}
use atree.Settings.{
  Settings, IsSettings, array_data_slab_prefix_size, array_root_data_slab_prefix_size,
}
use atree.Array.Slab.{Slab}
use atree.Array.Data
use atree.Array.Data.{get_prefix_size}
use atree.Array.Data.Thresholds.{is_full-lt}
use atree.Array.Meta
use atree.Array.Tree.{ArraySlab, leaf, node, header_of, is_inlined, extra_data_of}
use atree.Array.Ops.{slab_is_full}
use atree.Array.Ops.Under.{Footprint, IsUnder}
use atree.Array.Root.{demoted, with_extra_data, with_slab_id}

module _ {E X : Type 0} where
  unfoldable pub old_root : SlabId → ArraySlab E X → ArraySlab E X
  unfolding demoted with_extra_data with_slab_id
  old_root id slab = with_slab_id id (with_extra_data none (demoted slab))

module _ {E X O S : Type 0} (byte_size : E → ℕ) (c : Settings) (view : StorageView S (Slab E X O))
    (address : Bytes8) where
  -- The slab `old` under a new ID at the top of a tree, whose other IDs are `g`.
  pub record Demotes (d : ℕ) (s : S) (id : SlabId) (slab old : ArraySlab E X) (xs : List E)
      (f : Footprint) : Type 0 where
    pub g : Footprint
    pub all : (i : SlabId) → f i ≡ (SlabId_eq (header_of slab).slab_id i || g i)
    pub unshared : g (header_of slab).slab_id ≡ false
    pub below : IsUnder byte_size c view address s d old xs (λ i. SlabId_eq id i || g i)
    pub own : (header_of old).slab_id ≡ id
    pub extra : extra_data_of old ≡ none
    pub apart : is_inlined old ≡ false
    pub full : slab_is_full c old ≡ true
    pub size : (header_of old).size ≤ (header_of slab).size + 16

  pub demote :
      (d : ℕ) (s : S) (id : SlabId) (slab : ArraySlab E X) (xs : List E) (f : Footprint) (x : X)
      → IsSettings c
      → IsUnder byte_size c view address s d slab xs f
      → extra_data_of slab ≡ some x
      → is_inlined slab ≡ false
      → slab_is_full c slab ≡ true
      → (header_of slab).size ≤ c.max_threshold + c.max_inline_array_element_size
      → f id ≡ false
      → Demotes d s id slab (old_root id slab) xs f
  unfolding IsUnder header_of is_inlined extra_data_of slab_is_full old_root get_prefix_size
      Data.is_full Meta.is_full
  demote zero s id (leaf a) xs f x set (sound, holds, sized, own) extra apart full room fresh =
      let long : a.header.size ≡ array_root_data_slab_prefix_size + sum_by byte_size a.elements =
        rw (apart, extra) at sound.sized in
      let over : c.max_threshold < a.header.size = is_full-lt c a set full in
      let less : sub32 a.header.size array_root_data_slab_prefix_size
          ≡ a.header.size - array_root_data_slab_prefix_size =
        sub32_lem _ _ (omega (arith, long)) (omega (arith, sound.fits)) in
      let more : add32 (sub32 a.header.size array_root_data_slab_prefix_size)
            array_data_slab_prefix_size
          ≡ a.header.size + 16 =
        ap (λ n. add32 n array_data_slab_prefix_size) less
        ∙ (add32_lem _ _ (omega (arith, sound.fits)) ∙ omega (arith, long)) in
      record {
        g = λ _. false;
        all = λ i. own i ∙ ground arith;
        unshared = refl;
        below = (
          record {
            counted = sound.counted;
            sized = rw apart (more ∙ omega (arith, long));
            fits = omega (arith, more, room, set.most, set.upper, set.inline_limit);
            few = sound.few;
          },
          holds,
          sized,
          λ j. ground arith,
        );
        own = refl;
        extra = refl;
        apart = apart;
        full =
            ap (ltb (c.max_threshold % u32_mod)) more ∙ ground (arith, over, set.most, set.upper);
        size = omega (arith, more);
      }
  demote (suc d) s id (leaf a) xs f x set u extra apart full room fresh = absurd u
  demote zero s id (node a) xs f x set u extra apart full room fresh = absurd u
  demote (suc d) s id (node a) xs f x set (meta, g, own, unshared, children) extra apart full room
        fresh =
      record {
        g = g;
        all = own;
        unshared = unshared;
        below = (
          record {
            sized = meta.sized;
            counted = meta.counted;
            summed = meta.summed;
            fits = meta.fits;
            few = meta.few;
          },
          g,
          λ i. refl,
          ground (arith, own id),
          children,
        );
        own = refl;
        extra = refl;
        apart = refl;
        full = full;
        size = omega arith;
      }
