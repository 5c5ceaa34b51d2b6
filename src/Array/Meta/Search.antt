-- ===== src/Array/Meta/Search.antt =====
-- childSlabIndexInfo (array_metadata_slab.go) finds the child that an index falls in, by the linear
-- scan and by the binary search.
use atree.Prelude.{
  ℕ, zero, suc, ◌+◌, ◌-◌, ◌/◌, ◌≤◌, ◌<◌, ◌≡◌, ◌∙◌, ap, refl, some, List, [], ◌∷◌, false, Bool-cases,
  inl, inr, ltb, leb, length, take, get_elem?, arith, add32, add64, sub64, add32_lem, u32_mod,
  sum_by-take-drop,
}
use atree.Errors.{ok}
use atree.Array.Slab.{ArraySlabHeader, ArrayMetaDataSlab}
use atree.Array.Meta.{
  linear_scan, binary_search, linear_scan_threshold, count_sums, child_info, child_slab_index_info,
}
use atree.Array.Meta.Shape.{IsMeta, AreFilled, counts, get_elem?-count_sums, length-count_sums}

-- The number of elements before a child.
abbrev pub before : List ArraySlabHeader → ℕ → ℕ
before hs j = counts (take j hs)

-- Child `j` of `hs` is `h`, and element `index` of all is element `i` of it.
pub record Finds (hs : List ArraySlabHeader) (index j i : ℕ) (h : ArraySlabHeader) : Type 0 where
  pub child : get_elem? hs j ≡ some h
  pub inside : i < h.count
  pub at_index : before hs j + i ≡ index

located :
    (hs : List ArraySlabHeader) (j k : ℕ)
    → before hs j ≤ k
    → k < before hs (suc j)
    → (h : ArraySlabHeader) × (get_elem? hs j ≡ some h)
      × (before hs (suc j) ≡ before hs j + h.count)
      × (j < length hs)
located [] zero k l m = absurd (omega arith)
located [] (suc j) k l m = absurd (omega arith)
located (h ∷ hs) zero k l m = (h, refl, omega arith, omega arith)
located (h ∷ hs) (suc j) k l m =
    let (g, e, s, b) = located hs j (k - h.count) (omega arith) (omega arith) in
    (g, e, omega arith, omega arith)

filled :
    (hs : List ArraySlabHeader) (j : ℕ)
    → AreFilled hs
    → j < length hs
    → before hs j < before hs (suc j)
filled [] j f l = absurd (omega arith)
filled (h ∷ hs) zero f l = omega (arith, f.0)
filled (h ∷ hs) (suc j) f l = omega (arith, filled hs j f.1 (omega arith))

before-le : (hs : List ArraySlabHeader) (j : ℕ) → length hs ≤ j → before hs j ≡ counts hs
before-le [] zero l = refl
before-le [] (suc j) l = refl
before-le (h ∷ hs) zero l = absurd (omega arith)
before-le (h ∷ hs) (suc j) l = ap (◌+◌ h.count) (before-le hs j (omega arith))

linear_scan_lem :
    (hs : List ArraySlabHeader) (base index i : ℕ)
    → base ≤ index
    → index < base + counts hs
    → base + counts hs < u32_mod
    → (j : ℕ) × (linear_scan (count_sums base hs) index i ≡ i + j)
      × (base + before hs j ≤ index)
      × (index < base + before hs (suc j))
unfolding linear_scan count_sums
linear_scan_lem [] base index i l m b = absurd (omega arith)
linear_scan_lem (h ∷ hs) base index i l m b =
    let plus : add32 base h.count ≡ base + h.count = add32_lem _ _ (omega arith) in
    elim (Bool-cases (ltb index (base + h.count))) [
      | inl here ↦ rw (plus, here) (0, omega arith, omega arith, ground (arith, here))
      | inr later ↦
          let (j, e, lo, hi) =
            linear_scan_lem hs (base + h.count) index (i + 1) (ground (arith, later)) (omega arith)
              (omega arith) in
          rw (plus, later) (suc j, e ∙ omega arith, omega arith, omega arith)
    ]

module _ (hs : List ArraySlabHeader) (index : ℕ) (full : AreFilled hs) (few : counts hs < u32_mod)
    (inside : index < counts hs) where
  -- Where an index is the sum at a child, the child after it holds the index.
  after : (j : ℕ) → before hs (suc j) ≡ index → index < before hs (suc (suc j))
  after j e = elim (Bool-cases (ltb (suc j) (length hs))) [
    | inl more ↦ omega (arith, filled hs (suc j) full (ground (arith, more)))
    | inr last ↦ absurd (omega (arith, before-le hs (suc j) (ground (arith, last))))
  ]

  binary_search_lem :
      (fuel low high : ℕ)
      → low ≤ high
      → high ≤ length hs
      → high - low < fuel
      → before hs low ≤ index
      → index < before hs (suc high)
      → (j : ℕ) × (binary_search (count_sums 0 hs) index fuel low high ≡ ok j)
        × (before hs j ≤ index)
        × (index < before hs (suc j))
  unfolding binary_search
  binary_search_lem zero low high o n f l m = absurd (omega arith)
  binary_search_lem (suc fuel) low high o n f l m =
      let mid = (low + high) / 2 in
      elim (Bool-cases (ltb low high)) [
        | inr done ↦
            let same : high ≡ low = ground (arith, done) in rw done (low, refl, l, rw same at m)
        | inl more ↦
            let next : mid + 1 ≡ suc mid = omega arith in
            let at_mid : get_elem? (count_sums 0 hs) mid ≡ some (before hs (suc mid)) =
              get_elem?-count_sums 0 hs mid (omega arith) (ground (arith, more))
              ∙ ap some (omega arith) in
            elim (Bool-cases (ltb (before hs (suc mid)) index)) [
              | inl above ↦
                  rw (more, at_mid, above)
                    (binary_search_lem fuel (mid + 1) high (ground (arith, more)) n
                      (ground (arith, more)) (rw next (ground (arith, above))) m)
              | inr not_above ↦ elim (Bool-cases (ltb index (before hs (suc mid)))) [
                | inl below ↦
                    rw (more, at_mid, not_above, below)
                      (binary_search_lem fuel low mid (omega arith) (ground (arith, more))
                        (ground (arith, more)) l (ground (arith, below)))
                | inr equal ↦
                    rw (more, at_mid, not_above, equal)
                      (
                        mid + 1,
                        refl,
                        rw next (ground (arith, equal)),
                        rw next (after mid (ground (arith, not_above, equal))),
                      )
              ]
            ]
      ]

module _ {X : Type 0} (a : ArrayMetaDataSlab X) (meta : IsMeta a) where
  child_info_lem :
      (index j : ℕ)
      → before a.children_headers j ≤ index
      → index < before a.children_headers (suc j)
      → index < counts a.children_headers
      → (i : ℕ) × (h : ArraySlabHeader) × (child_info a index j ≡ ok (j, i, h.slab_id))
        × Finds a.children_headers index j i h
  unfolding child_info add64 sub64
  child_info_lem index j l m n =
      let (h, e, s, b) = located a.children_headers j index l m in
      let sum : get_elem? a.children_count_sum j ≡ some (before a.children_headers (suc j)) =
        ap (λ sums. get_elem? sums j) meta.summed
        ∙ (get_elem?-count_sums 0 a.children_headers j (omega (arith, meta.few, meta.counted)) b
            ∙ ap some (omega arith)) in
      (
        index - before a.children_headers j,
        h,
        rw (child_info, e, sum)
            (ap (λ i. ok (j, i, h.slab_id))
              (omega (
                arith,
                s,
                meta.few,
                meta.counted,
                sum_by-take-drop (λ (g : ArraySlabHeader). g.count) (suc j) a.children_headers,
              ))),
        record { child = e; inside = omega (arith, s); at_index = omega arith },
      )

  -- At an index below the count of an inner node that satisfies its invariant and has no empty
  -- child, childSlabIndexInfo returns, by the linear scan and by the binary search, the position
  -- and the ID of the child that holds the element, and the element's index in that child.
  pub child_slab_index_info-Finds :
      (index : ℕ)
      → AreFilled a.children_headers
      → index < a.header.count
      → (j : ℕ) × (i : ℕ) × (h : ArraySlabHeader) × (child_slab_index_info a index
          ≡ ok (j, i, h.slab_id))
        × Finds a.children_headers index j i h
  unfolding child_slab_index_info
  child_slab_index_info-Finds index full inside =
      let hs = a.children_headers in
      let guard : leb a.header.count index ≡ false = ground arith in
      let long : length a.children_count_sum ≡ length hs =
        ap length meta.summed ∙ length-count_sums 0 hs in
      elim (Bool-cases (ltb (length a.children_count_sum) linear_scan_threshold)) [
        | inl short ↦
            let (j, e, lo, hi) =
              linear_scan_lem hs 0 index 0 (omega arith) (omega (arith, meta.counted))
                (omega (arith, meta.counted, meta.few)) in
            let (i, h, r, f) =
              child_info_lem index j (omega arith) (omega arith) (omega (arith, meta.counted)) in
            (
              j,
              i,
              h,
              rw (guard, short)
                  (ap (child_info a index)
                      (ap (λ sums. linear_scan sums index 0) meta.summed ∙ (e ∙ omega arith))
                    ∙ r),
              f,
            )
        | inr many ↦
            let (j, e, lo, hi) =
              binary_search_lem hs index full (omega (arith, meta.counted, meta.few))
                (omega (arith, meta.counted)) (length hs + 1) 0 (length hs) (omega arith)
                (omega arith) (omega arith) (omega arith)
                (omega (arith, meta.counted, before-le hs (suc (length hs)) (omega arith))) in
            let (i, h, r, f) = child_info_lem index j lo hi (omega (arith, meta.counted)) in
            let search : binary_search a.children_count_sum index (length a.children_count_sum + 1)
                  0 (length a.children_count_sum)
                ≡ ok j =
              ap (λ n. binary_search a.children_count_sum index (n + 1) 0 n) long
              ∙ (ap (λ sums. binary_search sums index (length hs + 1) 0 (length hs)) meta.summed
                  ∙ e) in
            (j, i, h, rw (guard, many, search) r, f)
      ]
