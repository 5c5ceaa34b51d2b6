-- ===== src/Array/Meta/Shape.antt =====
-- The invariant of an inner node (array_metadata_slab.go), and its count sums.
use atree.Prelude.{
  ℕ, zero, suc, ◌+◌, ◌*◌, ◌<◌, ◌≡◌, ◌∙◌, ap, refl, ◌^◌, some, List, [], ◌∷◌, ◌++◌, length, take,
  get_elem?, sum_by, arith, add32, add32_lem, u32_mod,
}
use atree.Settings.{array_slab_header_size, array_meta_data_slab_prefix_size}
use atree.Array.Slab.{ArraySlabHeader, ArrayMetaDataSlab}
use atree.Array.Meta.{count_sums, total_count, last_sum}

-- The number of elements below some children.
abbrev pub counts : List ArraySlabHeader → ℕ
counts = sum_by (λ h. h.count)

-- The header holds the size of the child headers and the number of elements below them, and the
-- sums are the running totals of their counts.
pub record IsMeta {X : Type 0} (a : ArrayMetaDataSlab X) : Type 0 where
  pub sized :
      a.header.size
      ≡ array_meta_data_slab_prefix_size + array_slab_header_size * length a.children_headers
  pub counted : a.header.count ≡ counts a.children_headers
  pub summed : a.children_count_sum ≡ count_sums 0 a.children_headers
  pub fits : a.header.size < 2 ^ 30
  pub few : a.header.count < 2 ^ 31

-- No child is empty.
abbrev pub AreFilled : List ArraySlabHeader → Type 0
AreFilled [] = Unit
AreFilled (h ∷ hs) = (0 < h.count) × AreFilled hs

pub length-count_sums :
    (base : ℕ) (hs : List ArraySlabHeader) → length (count_sums base hs) ≡ length hs
unfolding count_sums
length-count_sums base [] = refl
length-count_sums base (h ∷ hs) = ap suc (length-count_sums (add32 base h.count) hs)

pub total_count-eq-counts :
    (base : ℕ) (hs : List ArraySlabHeader)
    → base + counts hs < u32_mod
    → total_count base hs ≡ base + counts hs
unfolding total_count
total_count-eq-counts base [] b = omega arith
total_count-eq-counts base (h ∷ hs) b =
    let plus : add32 base h.count ≡ base + h.count = add32_lem _ _ (omega arith) in
    rw plus (total_count-eq-counts (base + h.count) hs (omega arith) ∙ omega arith)

-- The sum at a position counts the elements up to and including that child.
pub get_elem?-count_sums :
    (base : ℕ) (hs : List ArraySlabHeader) (i : ℕ)
    → base + counts hs < u32_mod
    → i < length hs
    → get_elem? (count_sums base hs) i ≡ some (base + counts (take (suc i) hs))
unfolding count_sums
get_elem?-count_sums base [] i b l = absurd (omega arith)
get_elem?-count_sums base (h ∷ hs) zero b l = ap some (add32_lem _ _ (omega arith) ∙ omega arith)
get_elem?-count_sums base (h ∷ hs) (suc i) b l =
    let plus : add32 base h.count ≡ base + h.count = add32_lem _ _ (omega arith) in
    rw plus (
      get_elem?-count_sums (base + h.count) hs i (omega arith) (omega arith)
      ∙ ap some (omega arith))

pub count_sums-append :
    (base : ℕ) (xs ys : List ArraySlabHeader)
    → base + counts xs < u32_mod
    → count_sums base (xs ++ ys) ≡ count_sums base xs ++ count_sums (base + counts xs) ys
unfolding count_sums
count_sums-append base [] ys b = ap (λ n. count_sums n ys) (omega arith)
count_sums-append base (x ∷ xs) ys b =
    let plus : add32 base x.count ≡ base + x.count = add32_lem _ _ (omega arith) in
    rw plus (
      ap (◌∷◌ (base + x.count)) (
        count_sums-append (base + x.count) xs ys (omega arith)
        ∙ ap (λ n. count_sums (base + x.count) xs ++ count_sums n ys) (omega arith)))

pub take-count_sums :
    (base n : ℕ) (hs : List ArraySlabHeader)
    → take n (count_sums base hs) ≡ count_sums base (take n hs)
unfolding count_sums
take-count_sums base zero hs = refl
take-count_sums base (suc n) [] = refl
take-count_sums base (suc n) (h ∷ hs) =
    ap (◌∷◌ (add32 base h.count)) (take-count_sums (add32 base h.count) n hs)

pub last_sum-count_sums :
    (base : ℕ) (hs : List ArraySlabHeader)
    → base + counts hs < u32_mod
    → 0 < length hs
    → last_sum (count_sums base hs) ≡ some (base + counts hs)
unfolding count_sums last_sum
last_sum-count_sums base [] b l = absurd (omega arith)
last_sum-count_sums base (h ∷ []) b l = ap some (add32_lem _ _ (omega arith) ∙ omega arith)
last_sum-count_sums base (h ∷ g ∷ hs) b l =
    let plus : add32 base h.count ≡ base + h.count = add32_lem _ _ (omega arith) in
    last_sum-count_sums (add32 base h.count) (g ∷ hs) (omega (arith, plus)) (omega arith)
    ∙ ap some (omega (arith, plus))

pub total_count-counts :
    (hs : List ArraySlabHeader) → counts hs < u32_mod → total_count 0 hs ≡ counts hs
total_count-counts hs b = total_count-eq-counts 0 hs (omega arith) ∙ omega arith

-- The sums of two lists of children, from the first sum.
pub count_sums-both :
    (xs ys : List ArraySlabHeader)
    → counts xs < u32_mod
    → count_sums 0 (xs ++ ys) ≡ count_sums 0 xs ++ count_sums (counts xs) ys
count_sums-both xs ys b =
    count_sums-append 0 xs ys (omega arith)
    ∙ ap (λ n. count_sums 0 xs ++ count_sums n ys) (omega arith)
