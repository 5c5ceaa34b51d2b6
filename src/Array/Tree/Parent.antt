-- ===== src/Array/Tree/Parent.antt =====
-- The parent's headers and count sums after a split, a rebalance or a merge of its children
-- (array_metadata_slab.go, SplitChildSlab and MergeOrRebalanceChildSlab).
use atree.Prelude.{
  ℕ, zero, suc, ◌+◌, ◌<◌, ◌≡◌, ◌^◌, ◌∙◌, ap, refl, some, List, [], ◌∷◌, ◌++◌, ltb, true, length,
  get_elem?, set, take, drop, remove_at, arith, add32, sub32, add32_lem, sub32_lem, u32_mod,
  length-set,
}
use atree.Errors.{ok}
use atree.Settings.{array_slab_header_size}
use atree.Array.Slab.{ArraySlabHeader, ArrayMetaDataSlab}
use atree.Array.Meta.{count_sums}
use atree.Array.Meta.Shape.{IsMeta, counts, length-count_sums}
use atree.Array.Tree.{put, with_split, with_rebalanced, with_merged}

-- The sums after the child at `i` is split into `l` and `r`: the old sum less the right half's
-- count stands before it.
sums-split :
    (base : ℕ) (hs : List ArraySlabHeader) (i : ℕ) (h l r : ArraySlabHeader)
    → get_elem? hs i ≡ some h
    → h.count ≡ l.count + r.count
    → base + counts hs < u32_mod
    → (sum : ℕ) × (get_elem? (count_sums base hs ++ 0 ∷ []) i ≡ some sum)
      × (take i (count_sums base hs) ++ sub32 sum r.count ∷ drop i (count_sums base hs)
          ≡ count_sums base (take i hs ++ l ∷ r ∷ drop (suc i) hs))
      × (counts (take i hs ++ l ∷ r ∷ drop (suc i) hs) ≡ counts hs)
      × (length (take i hs ++ l ∷ r ∷ drop (suc i) hs) ≡ suc (length hs))
      × (i < length hs)
unfolding count_sums
sums-split base [] i h l r e c b = absurd (ground (arith, e))
sums-split base (g ∷ hs) zero h l r e c b =
    let same : g.count ≡ h.count = ground (arith, e) in
    let whole : add32 base g.count ≡ base + l.count + r.count =
      add32_lem _ _ (omega arith) ∙ omega arith in
    let half : add32 base l.count ≡ base + l.count = add32_lem _ _ (omega arith) in
    let both : add32 (base + l.count) r.count ≡ base + l.count + r.count =
      add32_lem _ _ (omega arith) in
    let less : sub32 (base + l.count + r.count) r.count ≡ base + l.count =
      sub32_lem _ _ (omega arith) (omega arith) ∙ omega arith in
    (_, refl, rw (whole, half, both, less), omega arith, refl, omega arith)
sums-split base (g ∷ hs) (suc i) h l r e c b =
    let plus : add32 base g.count ≡ base + g.count = add32_lem _ _ (omega arith) in
    let (sum, at_i, parts, total, long, inside) =
      sums-split (add32 base g.count) hs i h l r e c (omega (arith, plus)) in
    (sum, at_i, ap (◌∷◌ (add32 base g.count)) parts, omega (arith, total), ap suc long, omega arith)

-- The sums after the children `g` and `h` at `i` and `i + 1` become one, `m`.
sums-merge :
    (base : ℕ) (hs : List ArraySlabHeader) (i : ℕ) (g h m : ArraySlabHeader)
    → get_elem? hs i ≡ some g
    → get_elem? hs (suc i) ≡ some h
    → m.count ≡ g.count + h.count
    → base + counts hs < u32_mod
    → (remove_at (count_sums base hs) i ≡ count_sums base (remove_at (set hs i m) (suc i)))
      × (counts (remove_at (set hs i m) (suc i)) ≡ counts hs)
      × (suc (length (remove_at (set hs i m) (suc i))) ≡ length hs)
      × (suc i < length hs)
unfolding count_sums
sums-merge base [] i g h m e f c b = absurd (ground (arith, e))
sums-merge base (x ∷ []) zero g h m e f c b = absurd (ground (arith, f))
sums-merge base (x ∷ y ∷ hs) zero g h m e f c b =
    let x_same : x.count ≡ g.count = ground (arith, e) in
    let y_same : y.count ≡ h.count = ground (arith, f) in
    let first : add32 base x.count ≡ base + x.count = add32_lem _ _ (omega arith) in
    let second : add32 (base + x.count) y.count ≡ base + m.count =
      add32_lem _ _ (omega arith) ∙ omega arith in
    let one : add32 base m.count ≡ base + m.count = add32_lem _ _ (omega arith) in
    (rw (first, second, one), omega arith, refl, omega arith)
sums-merge base (x ∷ hs) (suc i) g h m e f c b =
    let plus : add32 base x.count ≡ base + x.count = add32_lem _ _ (omega arith) in
    let (parts, total, long, inside) =
      sums-merge (add32 base x.count) hs i g h m e f c (omega (arith, plus)) in
    (ap (◌∷◌ (add32 base x.count)) parts, omega (arith, total), ap suc long, omega arith)

-- The sums after the children `g` and `h` at `i` and `i + 1` become `l` and `r`: only the sum at `i`
-- changes.
sums-rebalance :
    (base : ℕ) (hs : List ArraySlabHeader) (i : ℕ) (g h l r : ArraySlabHeader)
    → get_elem? hs i ≡ some g
    → get_elem? hs (suc i) ≡ some h
    → l.count + r.count ≡ g.count + h.count
    → base + counts hs < u32_mod
    → (sum : ℕ) × (get_elem? (count_sums base hs) i ≡ some sum)
      × (set (count_sums base hs) i (add32 (sub32 sum g.count) l.count)
          ≡ count_sums base (set (set hs i l) (suc i) r))
      × (counts (set (set hs i l) (suc i) r) ≡ counts hs)
      × (length (set (set hs i l) (suc i) r) ≡ length hs)
      × (suc i < length hs)
unfolding count_sums
sums-rebalance base [] i g h l r e f c b = absurd (ground (arith, e))
sums-rebalance base (x ∷ []) zero g h l r e f c b = absurd (ground (arith, f))
sums-rebalance base (x ∷ y ∷ hs) zero g h l r e f c b =
    let x_same : x.count ≡ g.count = ground (arith, e) in
    let y_same : y.count ≡ h.count = ground (arith, f) in
    let first : add32 base x.count ≡ base + x.count = add32_lem _ _ (omega arith) in
    let second : add32 (base + x.count) y.count ≡ base + l.count + r.count =
      add32_lem _ _ (omega arith) ∙ omega arith in
    let less : sub32 (base + x.count) g.count ≡ base =
      sub32_lem _ _ (omega arith) (omega arith) ∙ omega arith in
    let one : add32 base l.count ≡ base + l.count = add32_lem _ _ (omega arith) in
    let both : add32 (base + l.count) r.count ≡ base + l.count + r.count =
      add32_lem _ _ (omega arith) in
    (_, refl, rw (first, second, less, one, both), omega arith, refl, omega arith)
sums-rebalance base (x ∷ hs) (suc i) g h l r e f c b =
    let plus : add32 base x.count ≡ base + x.count = add32_lem _ _ (omega arith) in
    let (sum, at_i, parts, total, long, inside) =
      sums-rebalance (add32 base x.count) hs i g h l r e f c (omega (arith, plus)) in
    (sum, at_i, ap (◌∷◌ (add32 base x.count)) parts, omega (arith, total), ap suc long, omega arith)

module _ {X : Type 0} (a : ArrayMetaDataSlab X) (meta : IsMeta a) where
  -- Where the child at `i` of an inner node that satisfies the invariant is split into two with its
  -- count between them, and the node has room for one more header below 2 ^ 30 bytes, SplitChildSlab
  -- does not panic, and leaves a node that satisfies the invariant, with the two in the child's
  -- place.
  pub with_split_lem :
      (i : ℕ) (h l r : ArraySlabHeader)
      → get_elem? a.children_headers i ≡ some h
      → h.count ≡ l.count + r.count
      → a.header.size + array_slab_header_size < 2 ^ 30
      → (m : ArrayMetaDataSlab X) × (with_split a i l r ≡ ok m)
        × IsMeta m
        × (m.children_headers
            ≡ take i a.children_headers ++ l ∷ r ∷ drop (suc i) a.children_headers)
  unfolding with_split add32
  with_split_lem i h l r e c fits =
      let (sum, at_i, parts, total, long, inside) =
        sums-split 0 a.children_headers i h l r e c (omega (arith, meta.few, meta.counted)) in
      let within : ltb i (length a.children_headers) ≡ true = ground arith in
      let found : get_elem? (a.children_count_sum ++ 0 ∷ []) i ≡ some sum =
        ap (λ sums. get_elem? (sums ++ 0 ∷ []) i) meta.summed ∙ at_i in
      rw (with_split, within, found)
        (
          _,
          refl,
          record {
            sized = omega (arith, meta.sized, long, fits);
            counted = omega (arith, meta.counted, total);
            summed =
                ap (λ sums. take i sums ++ sub32 sum r.count ∷ drop i sums) meta.summed ∙ parts;
            fits = omega (arith, fits);
            few = meta.few;
          },
          refl,
        )

  -- Where the neighbours at `i` and `i + 1` below an inner node that satisfies the invariant become
  -- two others with the same count between them, a rebalance in MergeOrRebalanceChildSlab does not
  -- panic, and leaves a node that satisfies the invariant, with the two in their places.
  pub with_rebalanced_lem :
      (i : ℕ) (g h l r : ArraySlabHeader)
      → get_elem? a.children_headers i ≡ some g
      → get_elem? a.children_headers (suc i) ≡ some h
      → l.count + r.count ≡ g.count + h.count
      → (m : ArrayMetaDataSlab X) × (with_rebalanced a i g.count l r ≡ ok m)
        × IsMeta m
        × (m.children_headers ≡ set (set a.children_headers i l) (suc i) r)
  unfolding with_rebalanced put
  with_rebalanced_lem i g h l r e f c =
      let (sum, at_i, parts, total, long, inside) =
        sums-rebalance 0 a.children_headers i g h l r e f c
          (omega (arith, meta.few, meta.counted)) in
      let found : get_elem? a.children_count_sum i ≡ some sum =
        ap (λ sums. get_elem? sums i) meta.summed ∙ at_i in
      let first : ltb i (length a.children_headers) ≡ true = ground arith in
      let second : ltb (suc i) (length (set a.children_headers i l)) ≡ true =
        ground (arith, length-set a.children_headers i l) in
      rw (with_rebalanced, found, first, second)
        (
          _,
          refl,
          record {
            sized = omega (arith, meta.sized, long);
            counted = omega (arith, meta.counted, total);
            summed =
                ap (λ sums. set sums i (add32 (sub32 sum g.count) l.count)) meta.summed ∙ parts;
            fits = meta.fits;
            few = meta.few;
          },
          refl,
        )

  -- Where the neighbours at `i` and `i + 1` below an inner node that satisfies the invariant are
  -- merged into one with the count of both, a merge in MergeOrRebalanceChildSlab does not panic, and
  -- leaves a node that satisfies the invariant, with the one in their place.
  pub with_merged_lem :
      (i : ℕ) (g h m : ArraySlabHeader)
      → get_elem? a.children_headers i ≡ some g
      → get_elem? a.children_headers (suc i) ≡ some h
      → m.count ≡ g.count + h.count
      → (p : ArrayMetaDataSlab X) × (with_merged a i m ≡ ok p)
        × IsMeta p
        × (p.children_headers ≡ remove_at (set a.children_headers i m) (suc i))
  unfolding with_merged sub32
  with_merged_lem i g h m e f c =
      let (parts, total, long, inside) =
        sums-merge 0 a.children_headers i g h m e f c (omega (arith, meta.few, meta.counted)) in
      let first : ltb (suc i) (length a.children_headers) ≡ true = ground arith in
      let second : ltb i (length a.children_count_sum) ≡ true =
        ground (arith, ap length meta.summed ∙ length-count_sums 0 a.children_headers) in
      rw (with_merged, first, second)
        (
          _,
          refl,
          record {
            sized = omega (arith, meta.sized, meta.fits, long);
            counted = omega (arith, meta.counted, total);
            summed = ap (λ sums. remove_at sums i) meta.summed ∙ parts;
            fits = omega (arith, meta.fits, meta.sized, long);
            few = meta.few;
          },
          refl,
        )
