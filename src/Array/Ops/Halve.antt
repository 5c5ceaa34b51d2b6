-- ===== src/Array/Ops/Halve.antt =====
-- Split (array_data_slab.go, array_metadata_slab.go) of the tree below a full slab of an array.
use atree.Prelude.{
  ℕ, zero, suc, ◌+◌, ◌/◌, ◌<◌, ◌≤◌, ◌≡◌, ◌∙◌, ap, sym, refl, true, false, ◌||◌, ◌&&◌, none, List,
  [], ◌∷◌, ◌++◌, length, length-take, length-drop, take, drop, sum_by, ltb, arith, Bool-cases, inl,
  inr,
}
use atree.Bytes.{Bytes8}
use atree.Ids.{SlabId, SlabId_eq}
use atree.Storage.Keys.{SlabId_eq_comm}
use atree.Storage.Interface.{StorageView}
use atree.Settings.{Settings, IsSettings}
use atree.Array.Slab.{ArrayDataSlab, ArrayMetaDataSlab, Slab}
use atree.Array.Data
use atree.Array.Data.{get_prefix_size}
use atree.Array.Data.Shape.{AreSized, AreSized-left, AreSized-right, IsLeaf}
use atree.Array.Data.Rebalance
use atree.Array.Data.Rebalance.Split.{split_of-Splits, split_of-within}
use atree.Array.Data.Thresholds.{is_full-lt, is_full-le}
use atree.Array.Meta
use atree.Array.Meta.Rebalance.{split_of-Shares}
use atree.Array.Tree.{ArraySlab, leaf, node, header_of, is_inlined, extra_data_of}
use atree.Array.Ops.Under.{Footprint, IsUnder, id-outside}
use atree.Array.Ops.Parts.{Kids-split, Kids-filled}

sum_by-one :
    {E : Type 0} (byte_size : E → ℕ) (limit : ℕ) (es : List E)
    → AreSized byte_size limit es
    → length es < 2
    → sum_by byte_size es ≤ limit
sum_by-one byte_size limit [] h l = omega arith
sum_by-one byte_size limit (e ∷ []) h l = omega (arith, h.1)
sum_by-one byte_size limit (e ∷ g ∷ es) h l = absurd (omega arith)

ids-apart :
    (own id : SlabId)
    → SlabId_eq own id ≡ false
    → (i : SlabId) → (SlabId_eq own i && SlabId_eq id i) ≡ false
ids-apart own id h i =
    ap (λ b. SlabId_eq own i && b) (SlabId_eq_comm id i) ∙ id-outside own (λ j. SlabId_eq j id) h i

module _ {E X O S : Type 0} (byte_size : E → ℕ) (c : Settings) (view : StorageView S (Slab E X O))
    (address : Bytes8) where
  -- A slab that can stand below an inner node, with its tree.
  pub record IsHalf (d : ℕ) (t : S) (id : SlabId) (slab : ArraySlab E X) (ys : List E)
      (f : Footprint) : Type 0 where
    pub below : IsUnder byte_size c view address t d slab ys f
    pub own : (header_of slab).slab_id ≡ id
    pub small : (header_of slab).size ≤ c.max_threshold
    pub filled : 0 < length ys
    pub inner : extra_data_of slab ≡ none
    pub apart : is_inlined slab ≡ false

  -- `l` and `r` share the tree of `child`, and `r` has a new ID.
  pub record Halves (d : ℕ) (t : S) (child l r : ArraySlab E X) (ys : List E) (f : Footprint)
      (id : SlabId) : Type 0 where
    pub ys_left : List E
    pub ys_right : List E
    pub f_left : Footprint
    pub f_right : Footprint
    pub left : IsHalf d t (header_of child).slab_id l ys_left f_left
    pub right : IsHalf d t id r ys_right f_right
    pub parts : ys ≡ ys_left ++ ys_right
    pub all : (i : SlabId) → (f_left i || f_right i) ≡ (f i || SlabId_eq id i)
    pub apart : (i : SlabId) → (f_left i && f_right i) ≡ false

  leaf-IsUnder :
      (t : S) (id : SlabId) (b : ArrayDataSlab E X)
      → IsLeaf byte_size b
      → AreSized byte_size c.max_inline_array_element_size b.elements
      → b.header.slab_id ≡ id
      → b.header.size ≤ c.max_threshold
      → 0 < length b.elements
      → b.extra_data ≡ none
      → b.inlined ≡ false
      → IsHalf zero t id (leaf b) b.elements (SlabId_eq id)
  unfolding IsUnder header_of extra_data_of is_inlined get_prefix_size
  leaf-IsUnder t id b good sized own small filled inner apart = record {
    below = (
      record {
        counted = good.counted;
        sized = rw (apart, inner) (good.sized);
        fits = good.fits;
        few = good.few;
      },
      refl,
      sized,
      λ j. ap (λ k. SlabId_eq k j) (sym own),
    );
    own = own;
    small = small;
    filled = filled;
    inner = inner;
    apart = apart;
  }

  module _ (set : IsSettings c) (t : S) (id : SlabId) (f : Footprint) (fresh : f id ≡ false) where
    pub halve_leaf :
        (a : ArrayDataSlab E X) (ys : List E)
        → IsUnder byte_size c view address t zero (leaf a) ys f
        → a.extra_data ≡ none
        → a.inlined ≡ false
        → Data.is_full c a ≡ true
        → a.header.size ≤ c.max_threshold + c.max_inline_array_element_size + 16
        → Halves zero t
            (leaf a)
            (leaf (Rebalance.split_of byte_size id a).0)
            (leaf (Rebalance.split_of byte_size id a).1)
            ys
            f
            id
          × (2 ≤ length a.elements)
    unfolding IsUnder header_of get_prefix_size Rebalance.split_of Rebalance.split_into
    halve_leaf a ys (sound, holds, sized, own) inner apart full room =
        let limit = c.max_inline_array_element_size in
        let good : IsLeaf byte_size a = record {
          counted = sound.counted;
          sized = rw (apart, inner) at sound.sized;
          fits = sound.fits;
          few = sound.few;
        } in
        let all_sized : AreSized byte_size limit a.elements = rw holds sized in
        let over = is_full-lt c a set full in
        let two : 2 ≤ length a.elements = elim (Bool-cases (ltb (length a.elements) 2)) [
          | inl few ↦ absurd (
              omega (
                arith,
                over,
                good.sized,
                sum_by-one byte_size limit a.elements all_sized (ground (arith, few)),
                set.least,
                set.upper,
                set.inline_limit,
              ))
          | inr many ↦ ground (arith, many)
        ] in
        let p = split_of-Splits byte_size limit id a good all_sized two in
        let (l, r) = Rebalance.split_of byte_size id a in
        let ranges = split_of-within byte_size c id a set good all_sized two full room in
        let parts : AreSized byte_size limit (l.elements ++ r.elements) = rw p.same all_sized in
        (
          record {
            ys_left = l.elements;
            ys_right = r.elements;
            f_left = SlabId_eq a.header.slab_id;
            f_right = SlabId_eq id;
            left =
                leaf-IsUnder t a.header.slab_id l p.left_leaf
                  (AreSized-left byte_size limit l.elements r.elements parts) p.left_id
                  (is_full-le c l set ranges.0.0) p.left_some inner apart;
            right =
                leaf-IsUnder t id r p.right_leaf
                  (AreSized-right byte_size limit l.elements r.elements parts) p.right_id
                  (is_full-le c r set ranges.1.0) p.right_some refl refl;
            parts = sym holds ∙ sym p.same;
            all = λ i. ap (λ b. b || SlabId_eq id i) (sym (own i));
            apart = ids-apart a.header.slab_id id (sym (own id) ∙ fresh);
          },
          two,
        )

    pub halve_node :
        (d : ℕ) (a : ArrayMetaDataSlab X) (ys : List E)
        → IsUnder byte_size c view address t (suc d) (node a) ys f
        → a.extra_data ≡ none
        → Meta.is_full c a ≡ true
        → a.header.size ≤ c.max_threshold + c.max_inline_array_element_size + 16
        → Halves
            (suc d)
            t
            (node a)
            (node (Meta.split_of id a).0)
            (node (Meta.split_of id a).1)
            ys
            f
            id
          × (2 ≤ length a.children_headers)
    unfolding IsUnder header_of extra_data_of is_inlined Meta.split_of Meta.is_full
    halve_node d a ys (meta, g, own, unshared, children) inner full room =
        let over : c.max_threshold < a.header.size = ground (arith, set.most, set.upper) in
        let hs = a.children_headers in
        let n = (length hs + 1) / 2 in
        let two : 2 ≤ length hs = omega (arith, meta.sized, over, set.least, set.upper) in
        let p = split_of-Shares id a meta in
        let (l, r) = Meta.split_of id a in
        let (ys_l, ys_r, g_l, g_r, front, back, parts, joins) =
          Kids-split byte_size c view address n d t hs ys g children in
        let long = length-take n hs (omega arith) in
        let short = length-drop n hs in
        let f_l : Footprint = λ i. SlabId_eq a.header.slab_id i || g_l i in
        let f_r : Footprint = λ i. SlabId_eq id i || g_r i in
        let outside : g id ≡ false = ground (arith, own id) in
        (
          record {
            ys_left = ys_l;
            ys_right = ys_r;
            f_left = f_l;
            f_right = f_r;
            left = record {
              below =
                  (p.left_meta, g_l, λ i. refl, ground (arith, joins.all a.header.slab_id), front);
              own = refl;
              small = omega (
                arith, p.left_meta.sized, long, meta.sized, set.least, set.upper, set.inline_limit,
              );
              filled =
                  Kids-filled byte_size c view address d t (take n hs) ys_l g_l front
                    (omega (arith, long));
              inner = inner;
              apart = refl;
            };
            right = record {
              below = (p.right_meta, g_r, λ i. refl, ground (arith, joins.all id), back);
              own = refl;
              small = omega (
                arith, p.right_meta.sized, short, meta.sized, set.least, set.upper,
                set.inline_limit,
              );
              filled =
                  Kids-filled byte_size c view address d t (drop n hs) ys_r g_r back
                    (omega (arith, short));
              inner = refl;
              apart = refl;
            };
            parts = parts;
            all = λ i. ground (arith, own i, joins.all i);
            apart = λ i. ground (
              arith,
              ids-apart a.header.slab_id id (ground (arith, own id)) i,
              id-outside a.header.slab_id g unshared i,
              id-outside id g outside i,
              joins.all i,
              joins.apart i,
            );
          },
          two,
        )
