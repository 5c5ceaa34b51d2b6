-- ===== src/Array/Ops/Read.antt =====
-- Get (array_metadata_slab.go, array_data_slab.go) and getArrayDataSlabWithIndex (array_slab.go)
-- read the sequence of elements that a tree of slabs holds.
use atree.Prelude.{
  ℕ, zero, suc, ◌<◌, ◌≤◌, ◌≡◌, ◌∙◌, ap, sym, refl, true, false, some, none, List, [], ◌∷◌, length,
  get_elem?, arith, leb, ltb, Bool-cases, inl, inr, get_elem?-lt,
}
use atree.Bytes.{Bytes8}
use atree.Errors.{Result, ok, err, new_index_out_of_bounds_error}
use atree.Action.{Action}
use atree.Storage.Interface.{SlabStorage, StorageView, IsLawfulStorage}
use atree.Settings.{Settings}
use atree.Array.Slab.{ArrayDataSlab, ArrayMetaDataSlab, Slab}
use atree.Array.Data
use atree.Array.Data.Update.{IsDataSlab}
use atree.Array.Meta.{child_slab_index_info}
use atree.Array.Tree.{ArraySlab, leaf, node, header_of}
use atree.Array.Ops.{get, get_array_data_slab_with_index}
use atree.Array.Ops.Under.{Footprint, IsUnder, count-IsUnder, IsUnder-frame}
use atree.Array.Ops.Step.{find_child, Keeps, Keeps-refl, Keeps-trans}

-- What a sequence of elements returns at an index.
unfoldable pub element_at : {E : Type 0} → List E → ℕ → Result E
element_at xs index = elim (get_elem? xs index) [
  | some e ↦ ok e
  | none ↦ err (new_index_out_of_bounds_error index 0 (length xs))
]

get_elem?-past : {A : Type 0} (xs : List A) (i : ℕ) → length xs ≤ i → get_elem? xs i ≡ none
get_elem?-past [] i h = refl
get_elem?-past (x ∷ xs) zero h = absurd (omega arith)
get_elem?-past (x ∷ xs) (suc i) h = get_elem?-past xs i (omega arith)

element_at-some :
    {E : Type 0} (xs : List E) (i : ℕ) (e : E) → get_elem? xs i ≡ some e → element_at xs i ≡ ok e
unfolding element_at
element_at-some xs i e h = rw (element_at, h)

element_at-past :
    {E : Type 0} (xs : List E) (i : ℕ)
    → length xs ≤ i
    → element_at xs i ≡ err (new_index_out_of_bounds_error i 0 (length xs))
unfolding element_at
element_at-past xs i h = rw (element_at, get_elem?-past xs i h)

module _ {E X O S V : Type 0} (byte_size : E → ℕ) (c : Settings)
    (storage : SlabStorage S (Slab E X O)) (storable : Bytes8 → ℕ → V → Action S E)
    (view : StorageView S (Slab E X O)) (lawful : IsLawfulStorage storage view)
    (address : Bytes8) where
  -- An index at or behind the end.
  past-the-end :
      (d : ℕ) (s : S) (a : ArrayMetaDataSlab X) (xs : List E) (f : Footprint) (index : ℕ)
      → IsUnder byte_size c view address s (suc d) (node a) xs f
      → length xs ≤ index
      → child_slab_index_info a index ≡ err (new_index_out_of_bounds_error index 0 (length xs))
  unfolding header_of child_slab_index_info
  past-the-end d s a xs f index u h =
      let count : a.header.count ≡ length xs =
        count-IsUnder byte_size c view address s (suc d) (node a) xs f u in
      let guard : leb (length xs) index ≡ true = ground arith in rw (count, guard)

  element_at_leaf :
      (a : ArrayDataSlab E X) (xs : List E) (index : ℕ)
      → a.elements ≡ xs
      → Data.get a index ≡ element_at xs index
  unfolding Data.get element_at
  element_at_leaf a xs index e = rw e refl

  -- In a storage that keeps the promises of IsLawfulStorage, on fuel above the depth of the tree,
  -- Get at a slab that stands at the top of a tree of the elements `xs` returns the element of `xs`
  -- at the index, or the error on an index out of bounds with the length of `xs`, and leaves what is
  -- held and which IDs have been given out as they are.
  pub get_lem :
      (fuel d : ℕ) (s : S) (slab : ArraySlab E X) (xs : List E) (f : Footprint) (index : ℕ)
      → d < fuel
      → IsUnder byte_size c view address s d slab xs f
      → (s' : S) × (get byte_size c storage storable fuel slab index s ≡ (element_at xs index, s'))
        × Keeps byte_size c storage view lawful address s s'
  unfolding get Data.get IsUnder header_of
  get_lem zero d s slab xs f index fuelled u = absurd (omega arith)
  get_lem (suc fuel) zero s (leaf a) xs f index fuelled (sound, holds, sized, own) = (
    s,
    ap (λ r. (r, s)) (element_at_leaf a xs index holds),
    Keeps-refl byte_size c storage view lawful address s,
  )
  get_lem (suc fuel) (suc d) s (leaf a) xs f index fuelled u = absurd u
  get_lem (suc fuel) zero s (node a) xs f index fuelled u = absurd u
  get_lem (suc fuel) (suc d) s (node a) xs f index fuelled u =
      let (meta, g, own, fresh, children) = u in
      let count : a.header.count ≡ length xs =
        count-IsUnder byte_size c view address s (suc d) (node a) xs f u in
      elim (Bool-cases (ltb index (length xs))) [
        | inl inside ↦
            let p =
              find_child byte_size c storage view lawful address d s a xs g index meta children
                count (ground (arith, inside)) in
            let below =
              IsUnder-frame byte_size c view address d s p.state p.part.has.child p.part.ys
                p.part.f_child (λ j m. p.keeps.held j) p.part.has.below in
            let (s', r, keeps) =
              get_lem fuel d p.state p.part.has.child p.part.ys p.part.f_child p.inner (omega arith)
                below in
            let (e, at_inner) = get_elem?-lt p.part.ys p.inner p.inside in
            let same : element_at p.part.ys p.inner ≡ element_at xs index =
              element_at-some p.part.ys p.inner e at_inner
              ∙ sym (element_at-some xs index e (p.same ∙ at_inner)) in
            (
              s',
              rw (p.found, p.read, r, same),
              Keeps-trans byte_size c storage view lawful address s p.state s' p.keeps keeps,
            )
        | inr past ↦ (
          s,
          rw (
            past-the-end d s a xs f index u (ground (arith, past)),
            element_at-past xs index (ground (arith, past)),
          ),
          Keeps-refl byte_size c storage view lawful address s,
        )
      ]

  -- In a storage that keeps the promises of IsLawfulStorage, on fuel above the depth of the tree,
  -- getArrayDataSlabWithIndex at a slab that stands at the top of a tree of the elements `xs`, for an
  -- index below the length of `xs`, ends at a leaf with a right header and returns it with the index
  -- in it of the element that `xs` has at the index, and leaves what is held and which IDs have been
  -- given out as they are.
  pub get_array_data_slab_with_index_lem :
      (fuel d : ℕ) (s : S) (slab : ArraySlab E X) (xs : List E) (f : Footprint) (index : ℕ)
      → d < fuel
      → IsUnder byte_size c view address s d slab xs f
      → index < length xs
      → (a : ArrayDataSlab E X) × (i : ℕ) × (s' : S) × (get_array_data_slab_with_index byte_size c
            storage storable fuel slab index s
          ≡ (ok (a, i), s'))
        × (get_elem? a.elements i ≡ get_elem? xs index)
        × IsDataSlab byte_size a
        × Keeps byte_size c storage view lawful address s s'
  unfolding get_array_data_slab_with_index IsUnder header_of
  get_array_data_slab_with_index_lem zero d s slab xs f index fuelled u inside =
      absurd (omega arith)
  get_array_data_slab_with_index_lem (suc fuel) zero s (leaf a) xs f index fuelled
        (sound, holds, sized, own) inside =
      let guard : leb (length a.elements) index ≡ false = ground (arith, ap length holds) in
      (
        a,
        index,
        s,
        rw guard refl,
        ap (λ zs. get_elem? zs index) holds,
        sound,
        Keeps-refl byte_size c storage view lawful address s,
      )
  get_array_data_slab_with_index_lem (suc fuel) (suc d) s (leaf a) xs f index fuelled u inside =
      absurd u
  get_array_data_slab_with_index_lem (suc fuel) zero s (node a) xs f index fuelled u inside =
      absurd u
  get_array_data_slab_with_index_lem (suc fuel) (suc d) s (node a) xs f index fuelled u inside =
      let (meta, g, own, fresh, children) = u in
      let count : a.header.count ≡ length xs =
        count-IsUnder byte_size c view address s (suc d) (node a) xs f u in
      let p =
        find_child byte_size c storage view lawful address d s a xs g index meta children count
          inside in
      let below =
        IsUnder-frame byte_size c view address d s p.state p.part.has.child p.part.ys p.part.f_child
          (λ j m. p.keeps.held j) p.part.has.below in
      let (b, i, s', r, same, sound, keeps) =
        get_array_data_slab_with_index_lem fuel d p.state p.part.has.child p.part.ys p.part.f_child
          p.inner (omega arith) below p.inside in
      (
        b,
        i,
        s',
        rw (p.found, p.read) r,
        same ∙ sym p.same,
        sound,
        Keeps-trans byte_size c storage view lawful address s p.state s' p.keeps keeps,
      )
