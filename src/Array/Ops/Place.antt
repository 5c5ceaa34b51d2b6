-- ===== src/Array/Ops/Place.antt =====
-- The child that Insert of an inner node goes to (array_metadata_slab.go).
use atree.Prelude.{
  ℕ, zero, suc, ◌+◌, ◌-◌, ◌<◌, ◌≤◌, ◌≡◌, ◌∙◌, ap, refl, some, List, [], ◌∷◌, ◌++◌, length,
  get_elem?, insert_at, ◌==◌, arith, Bool-cases, inl, inr,
}
use atree.Errors.{ok}
use atree.Array.Slab.{ArraySlabHeader, ArrayMetaDataSlab}
use atree.Array.Meta.Shape.{IsMeta, AreFilled, counts}
use atree.Array.Meta.Search.{before, child_slab_index_info-Finds}
use atree.Array.Ops.{insert_place}

last_child :
    (hs : List ArraySlabHeader) (n : ℕ)
    → suc n ≡ length hs
    → (h : ArraySlabHeader) × (get_elem? hs n ≡ some h) × (before hs n + h.count ≡ counts hs)
last_child [] n l = absurd (omega arith)
last_child (h ∷ []) zero l = (h, refl, omega arith)
last_child (h ∷ []) (suc n) l = absurd (omega arith)
last_child (h ∷ g ∷ hs) zero l = absurd (omega arith)
last_child (h ∷ g ∷ hs) (suc n) l =
    let (k, e, c) = last_child (g ∷ hs) n (omega arith) in (k, e, omega (arith, c))

-- Child `j` of `hs` is `h`, and a position before, between or behind its elements.
pub record Accepts (hs : List ArraySlabHeader) (index j i : ℕ) (h : ArraySlabHeader) : Type 0 where
  pub child : get_elem? hs j ≡ some h
  pub inside : i ≤ h.count
  pub at_index : before hs j + i ≡ index

-- For an index up to the count of an inner node with children, none of them empty, the child that
-- Insert goes to is one that holds the position of the index, and the index in it is right.
pub insert_place-Accepts :
    {X : Type 0} (a : ArrayMetaDataSlab X) (index : ℕ)
    → IsMeta a
    → AreFilled a.children_headers
    → 0 < length a.children_headers
    → index ≤ a.header.count
    → (j : ℕ) × (i : ℕ) × (h : ArraySlabHeader) × (insert_place a index ≡ ok (j, i, h.slab_id))
      × Accepts a.children_headers index j i h
unfolding insert_place
insert_place-Accepts a index meta filled some_child l =
    elim (Bool-cases (index == a.header.count)) [
      | inl last ↦
          let (h, e, c) =
            last_child a.children_headers (length a.children_headers - 1) (omega arith) in
          (
            length a.children_headers - 1,
            h.count,
            h,
            rw (last, insert_place, e) refl,
            record {
              child = e;
              inside = omega arith;
              at_index = ground (arith, last, c, meta.counted);
            },
          )
      | inr before_end ↦
          let (j, i, h, r, f) =
            child_slab_index_info-Finds a meta index filled (ground (arith, before_end)) in
          (
            j,
            i,
            h,
            rw before_end r,
            record { child = f.child; inside = omega (arith, f.inside); at_index = f.at_index },
          )
    ]

insert_at-first :
    {A : Type 0} (ys rest : List A) (i : ℕ) (v : A)
    → i ≤ length ys
    → insert_at (ys ++ rest) i v ≡ insert_at ys i v ++ rest
insert_at-first ys rest zero v l = refl
insert_at-first [] rest (suc i) v l = absurd (omega arith)
insert_at-first (y ∷ ys) rest (suc i) v l = ap (◌∷◌ y) (insert_at-first ys rest i v (omega arith))

pub insert_at-parts :
    {A : Type 0} (lead ys rest : List A) (i : ℕ) (v : A)
    → i ≤ length ys
    → insert_at (lead ++ (ys ++ rest)) (length lead + i) v ≡ lead ++ (insert_at ys i v ++ rest)
insert_at-parts [] ys rest i v l =
    ap (λ n. insert_at (ys ++ rest) n v) {x = 0 + i} {y = i} (omega arith)
    ∙ insert_at-first ys rest i v l
insert_at-parts (x ∷ lead) ys rest i v l =
    ap (λ n. insert_at (x ∷ lead ++ (ys ++ rest)) n v) {x = length (x ∷ lead) + i}
      {y = suc (length lead + i)} (omega arith)
    ∙ ap (◌∷◌ x) (insert_at-parts lead ys rest i v l)
