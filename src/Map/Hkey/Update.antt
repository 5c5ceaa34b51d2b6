-- ===== src/Map/Hkey/Update.antt =====
-- What Set and Remove do to the slices and the size of hkeyElements (map_elements_hashkey.go) keeps
-- their invariant.
use atree.Prelude.{
  ℕ, zero, suc, ◌+◌, ◌^◌, ◌≤◌, ◌<◌, ◌≡◌, ◌∙◌, refl, ap, some, List, [], ◌∷◌, length, get_elem?, set,
  take, drop, insert_at, remove_at, sum_by, arith, add32, sub32, add32_lem, length-set,
  sum_by-append, sum_by-take-drop,
}
use atree.Settings.{hkey_elements_prefix_size, digest_size}
use atree.Map.Slab.{HkeyElements}
use atree.Map.Hkey.{at_new, sized, size_of_all, with_new, with_updated, without, with_replaced}
use atree.Map.Hkey.Shape.{AreSorted-insert, AreSorted-remove, sized_bytes, IsHkeyElements}
use atree.Map.Hkey.Search.{IsPlace}

module _ {A : Type 0} where
  pub length-insert_at :
      (xs : List A) (i : ℕ) (v : A) → i ≤ length xs → length (insert_at xs i v) ≡ suc (length xs)
  length-insert_at xs zero v h = refl
  length-insert_at [] (suc i) v h = absurd (omega arith)
  length-insert_at (x ∷ xs) (suc i) v h = ap suc (length-insert_at xs i v (omega arith))

  length-remove_at :
      (xs : List A) (i : ℕ) → i < length xs → suc (length (remove_at xs i)) ≡ length xs
  length-remove_at [] i h = absurd (omega arith)
  length-remove_at (x ∷ xs) zero h = refl
  length-remove_at (x ∷ xs) (suc i) h = ap suc (length-remove_at xs i (omega arith))

  pub get_elem?-inside : (xs : List A) (i : ℕ) (x : A) → get_elem? xs i ≡ some x → i < length xs
  get_elem?-inside [] i x e = absurd cc
  get_elem?-inside (y ∷ xs) zero x e = omega arith
  get_elem?-inside (y ∷ xs) (suc i) x e = omega (arith, get_elem?-inside xs i x e)

  module _ (size : A → ℕ) where
    sum_by-insert_at :
        (xs : List A) (i : ℕ) (v : A) → sum_by size (insert_at xs i v) ≡ size v + sum_by size xs
    sum_by-insert_at xs i v =
        omega (arith, sum_by-append size (take i xs) (v ∷ drop i xs), sum_by-take-drop size i xs)

    sum_by-remove_at :
        (xs : List A) (i : ℕ) (v : A)
        → get_elem? xs i ≡ some v
        → size v + sum_by size (remove_at xs i) ≡ sum_by size xs
    sum_by-remove_at [] i v e = absurd cc
    sum_by-remove_at (x ∷ xs) zero v e = let same : x ≡ v = cc in rw same refl
    sum_by-remove_at (x ∷ xs) (suc i) v e = omega (arith, sum_by-remove_at xs i v e)

    sum_by-set :
        (xs : List A) (i : ℕ) (v w : A)
        → get_elem? xs i ≡ some v
        → size v + sum_by size (set xs i w) ≡ size w + sum_by size xs
    sum_by-set [] i v w e = absurd cc
    sum_by-set (x ∷ xs) zero v w e = let same : x ≡ v = cc in rw same (omega arith)
    sum_by-set (x ∷ xs) (suc i) v w e = omega (arith, sum_by-set xs i v w e)

module _ {T : Type 0} (elem_size : T → ℕ) where
  size_of_all_lem :
      (size : ℕ) (ts : List T)
      → size + sized_bytes elem_size ts < 2 ^ 30
      → size_of_all elem_size size ts ≡ size + sized_bytes elem_size ts
  unfolding size_of_all
  size_of_all_lem size [] h = omega arith
  size_of_all_lem size (t ∷ ts) h =
      let plus : add32 size (sized elem_size t) ≡ size + sized elem_size t =
        add32_lem _ _ (omega arith) in
      rw plus (size_of_all_lem (size + sized elem_size t) ts (omega arith) ∙ omega arith)

  module _ (e : HkeyElements T) (shape : IsHkeyElements elem_size e) where
    -- A new digest at its place, with an element, leaves the digests sorted, one for each element,
    -- and the size counted, as long as the size stays below 2 ^ 30.
    pub with_new-IsHkeyElements :
        (index hkey : ℕ) (t : T)
        → IsPlace e.hkeys hkey (at_new index)
        → e.size + elem_size t + digest_size < 2 ^ 30
        → IsHkeyElements elem_size (with_new elem_size e index hkey t)
    unfolding with_new add32
    with_new-IsHkeyElements index hkey t place fits =
        let inside = place.0 in
        let bytes = sum_by-insert_at (sized elem_size) e.elems index t in
        record {
          sorted = AreSorted-insert index hkey e.hkeys shape.sorted place.1 place.2;
          paired = omega (
            arith,
            length-insert_at e.hkeys index hkey inside,
            length-insert_at e.elems index t (omega (arith, shape.paired)),
            shape.paired,
          );
          counted = omega (arith, bytes, shape.counted);
          fits = omega (arith, shape.counted);
        }

    -- An element put in the place of another one keeps the digests sorted, one for each element,
    -- and the size is counted anew, as long as it stays below 2 ^ 30.
    pub with_updated-IsHkeyElements :
        (index : ℕ) (t : T)
        → hkey_elements_prefix_size + sized_bytes elem_size (set e.elems index t) < 2 ^ 30
        → IsHkeyElements elem_size (with_updated elem_size e index t)
    unfolding with_updated
    with_updated-IsHkeyElements index t fits =
        let sum = size_of_all_lem hkey_elements_prefix_size (set e.elems index t) fits in
        record {
          sorted = shape.sorted;
          paired = omega (arith, shape.paired, length-set e.elems index t);
          counted = sum;
          fits = omega arith;
        }

    -- Without a digest and its element, the other digests are sorted, one for each element, and the
    -- size counts what is left.
    pub without-IsHkeyElements :
        (index : ℕ) (old : T)
        → get_elem? e.elems index ≡ some old
        → IsHkeyElements elem_size (without elem_size e index old)
    unfolding without add32 sub32
    without-IsHkeyElements index old at_index =
        let inside = get_elem?-inside e.elems index old at_index in
        let bytes = sum_by-remove_at (sized elem_size) e.elems index old at_index in
        record {
          sorted = AreSorted-remove index e.hkeys shape.sorted;
          paired = omega (
            arith,
            length-remove_at e.hkeys index (omega (arith, shape.paired)),
            length-remove_at e.elems index inside,
            shape.paired,
          );
          counted = omega (arith, shape.counted, shape.fits);
          fits = omega (arith, shape.counted, shape.fits);
        }

    -- What Remove leaves of an element takes its place: the digests stay sorted, one for each
    -- element, and the size counts the new element instead of the old one, as long as the
    -- old element and the sum are below 2 ^ 30.
    pub with_replaced-IsHkeyElements :
        (index : ℕ) (old t : T)
        → get_elem? e.elems index ≡ some old
        → elem_size old < 2 ^ 30
        → e.size + elem_size t < 2 ^ 30
        → IsHkeyElements elem_size (with_replaced elem_size e index old t)
    unfolding with_replaced add32 sub32
    with_replaced-IsHkeyElements index old t at_index small fits =
        let bytes = sum_by-set (sized elem_size) e.elems index old t at_index in
        record {
          sorted = shape.sorted;
          paired = omega (arith, shape.paired, length-set e.elems index t);
          counted = omega (arith, shape.counted, shape.fits);
          fits = omega (arith, shape.counted, shape.fits);
        }
