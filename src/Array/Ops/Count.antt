-- ===== src/Array/Ops/Count.antt =====
-- The count and the count sums of an inner node after one element more or less below a child
-- (array_metadata_slab.go, Set, Insert and Remove).
use atree.Prelude.{
  ℕ, zero, suc, ◌+◌, ◌^◌, ◌<◌, ◌≡◌, ◌∙◌, ap, refl, true, some, List, [], ◌∷◌, ◌++◌, length,
  length-set, take, drop, set, get_elem?, ltb, arith, add32, add32_lem, u32_mod,
}
use atree.Errors.{ok}
use atree.Array.Slab.{ArraySlabHeader, ArrayMetaDataSlab}
use atree.Array.Meta.{count_sums}
use atree.Array.Meta.Shape.{IsMeta, counts}
use atree.Array.Tree.{put}
use atree.Array.Ops.{increment_from, with_child, with_one_more}

pub set-take-drop :
    {A : Type 0} (xs : List A) (i : ℕ) (x v : A)
    → get_elem? xs i ≡ some x
    → (set xs i v ≡ take i xs ++ v ∷ drop (suc i) xs) × (i < length xs)
set-take-drop [] i x v h = absurd (ground (arith, h))
set-take-drop (y ∷ xs) zero x v h = (refl, omega arith)
set-take-drop (y ∷ xs) (suc i) x v h =
    let (e, l) = set-take-drop xs i x v h in (ap (◌∷◌ y) e, omega arith)

counts-set :
    (hs : List ArraySlabHeader) (i : ℕ) (h g : ArraySlabHeader)
    → get_elem? hs i ≡ some h
    → counts (set hs i g) + h.count ≡ counts hs + g.count
counts-set [] i h g e = absurd (ground (arith, e))
counts-set (x ∷ hs) zero h g e = let same : x.count ≡ h.count = ground (arith, e) in omega arith
counts-set (x ∷ hs) (suc i) h g e = omega (arith, counts-set hs i h g e)

increment-count_sums :
    (hs : List ArraySlabHeader) (base : ℕ)
    → base + counts hs + 1 < u32_mod
    → increment_from 0 (count_sums base hs) ≡ count_sums (base + 1) hs
unfolding increment_from count_sums
increment-count_sums [] base b = refl
increment-count_sums (h ∷ hs) base b =
    let plus : add32 base h.count ≡ base + h.count = add32_lem _ _ (omega arith) in
    let more : add32 (base + h.count) 1 ≡ base + h.count + 1 = add32_lem _ _ (omega arith) in
    let right : add32 (base + 1) h.count ≡ base + h.count + 1 =
      add32_lem _ _ (omega arith) ∙ omega arith in
    rw (plus, more, right)
      (ap (◌∷◌ (base + h.count + 1)) (increment-count_sums hs (base + h.count) (omega arith)))

increment_from_lem :
    (hs : List ArraySlabHeader) (base i : ℕ) (h g : ArraySlabHeader)
    → get_elem? hs i ≡ some h
    → g.count ≡ h.count + 1
    → base + counts hs + 1 < u32_mod
    → increment_from i (count_sums base hs) ≡ count_sums base (set hs i g)
unfolding increment_from count_sums
increment_from_lem [] base i h g e c b = absurd (ground (arith, e))
increment_from_lem (x ∷ hs) base zero h g e c b =
    let same : x.count ≡ h.count = ground (arith, e) in
    let plus : add32 base x.count ≡ base + x.count = add32_lem _ _ (omega arith) in
    let more : add32 (base + x.count) 1 ≡ base + x.count + 1 = add32_lem _ _ (omega arith) in
    let right : add32 base g.count ≡ base + x.count + 1 =
      add32_lem _ _ (omega arith) ∙ omega arith in
    rw (plus, more, right)
      (ap (◌∷◌ (base + x.count + 1)) (increment-count_sums hs (base + x.count) (omega arith)))
increment_from_lem (x ∷ hs) base (suc i) h g e c b =
    let plus : add32 base x.count ≡ base + x.count = add32_lem _ _ (omega arith) in
    rw plus
      (ap (◌∷◌ (base + x.count)) (increment_from_lem hs (base + x.count) i h g e c (omega arith)))

-- `m` is `a` with the header `g` for the child at `i`.
pub record Recounts {X : Type 0} (a m : ArrayMetaDataSlab X) (i : ℕ) (g : ArraySlabHeader)
    : Type 0 where
  pub meta : IsMeta m
  pub headers :
      m.children_headers ≡ take i a.children_headers ++ g ∷ drop (suc i) a.children_headers
  pub id : m.header.slab_id ≡ a.header.slab_id
  pub size : m.header.size ≡ a.header.size
  pub extra : m.extra_data ≡ a.extra_data

module _ {X : Type 0} (a : ArrayMetaDataSlab X) (meta : IsMeta a) (i : ℕ) (h g : ArraySlabHeader)
    (there : get_elem? a.children_headers i ≡ some h) where
  -- In a node that satisfies the invariant and has room in its count, the end of Insert below the
  -- child at `i`, whose header then counts one element more, does not panic and leaves a node that
  -- satisfies the invariant, with the new header at `i` and all else as it was.
  pub with_one_more_lem :
      g.count ≡ h.count + 1
      → a.header.count + 1 < 2 ^ 31
      → (m : ArrayMetaDataSlab X) × (with_one_more a i g ≡ ok m) × Recounts a m i g
  unfolding with_one_more with_child put
  with_one_more_lem c few =
      let (e, l) = set-take-drop a.children_headers i h g there in
      let inside : ltb i (length a.children_headers) ≡ true = ground arith in
      let plus : add32 a.header.count 1 ≡ a.header.count + 1 = add32_lem _ _ (omega arith) in
      rw inside (
        _,
        refl,
        record {
          meta = record {
            sized = meta.sized ∙ omega (arith, length-set a.children_headers i g);
            counted = omega (arith, plus, meta.counted, counts-set a.children_headers i h g there);
            summed =
                ap (increment_from i) meta.summed
                ∙ increment_from_lem a.children_headers 0 i h g there c
                    (omega (arith, meta.counted));
            fits = meta.fits;
            few = omega (arith, plus);
          };
          headers = e;
          id = refl;
          size = refl;
          extra = refl;
        },
      )
