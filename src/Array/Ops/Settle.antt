-- ===== src/Array/Ops/Settle.antt =====
-- The end of Insert in an inner node (array_metadata_slab.go): a child that is full then is split.
use mathlib.Core.List.{append-nil}
use atree.Prelude.{
  ℕ, zero, suc, ◌+◌, ◌<◌, ◌≤◌, ◌≡◌, ◌^◌, ◌∙◌, ap, sym, refl, true, false, ◌||◌, none, some, List,
  [], ◌∷◌, ◌++◌, length, take, drop, get_elem?, add32, Option, arith, Bool-cases, inl, inr,
}
use atree.Bytes.{Bytes8}
use atree.Ids.{SlabId, SlabId_eq}
use atree.Errors.{ok}
use atree.Action.{Action, pure, bind-ok}
use atree.Storage.Interface.{SlabStorage, StorageView, IsLawfulStorage}
use atree.Settings.{Settings, IsSettings, array_slab_header_size}
use atree.Array.Slab.{ArraySlabHeader, ArrayMetaDataSlab, Slab}
use atree.Array.Meta
use atree.Array.Tree.{
  ArraySlab, node, leaf, header_of, slab_of, store_array_slab, split_slab, split_child_slab,
  is_inlined, extra_data_of, with_split,
}
use atree.Array.Tree.Parent.{with_split_lem}
use atree.Array.Data.Thresholds.{is_full-le}
use atree.Array.Ops.{slab_is_full, settle_full}
use atree.Array.Ops.Under.{Footprint, IsUnder}
use atree.Array.Ops.Parts.{Around}
use atree.Array.Ops.Count.{Recounts}
use atree.Array.Ops.Close.{close}
use atree.Array.Ops.Pair.{split_kids, Kid-IsHalf}
use atree.Array.Ops.Grows.{Grows, Grows-weaken, Grows-trans}

get-replaced :
    {A : Type 0} (xs ys : List A) (j : ℕ) (x v : A)
    → get_elem? xs j ≡ some x
    → (get_elem? (take j xs ++ v ∷ ys) j ≡ some v)
      × (take j (take j xs ++ v ∷ ys) ≡ take j xs)
      × (drop (suc j) (take j xs ++ v ∷ ys) ≡ ys)
get-replaced [] ys j x v h = absurd (ground (arith, h))
get-replaced (z ∷ xs) ys zero x v h = (refl, refl, refl)
get-replaced (z ∷ xs) ys (suc j) x v h =
    let (a, b, c) = get-replaced xs ys j x v h in (a, ap (◌∷◌ z) b, c)

with_split_keeps :
    {X : Type 0} (a m : ArrayMetaDataSlab X) (i : ℕ) (l r : ArraySlabHeader)
    → with_split a i l r ≡ ok m
    → a.header.size + array_slab_header_size < 2 ^ 30
    → (m.header.slab_id ≡ a.header.slab_id)
      × (m.header.size ≡ a.header.size + array_slab_header_size)
      × (m.extra_data ≡ a.extra_data)
unfolding with_split add32
with_split_keeps a m i l r e fits = ground (arith, e)

pub slab_is_full-le :
    {E X : Type 0} (c : Settings) (slab : ArraySlab E X)
    → IsSettings c
    → slab_is_full c slab ≡ false
    → (header_of slab).size ≤ c.max_threshold
unfolding slab_is_full header_of Meta.is_full
slab_is_full-le c (leaf a) set h = is_full-le c a set h
slab_is_full-le c (node a) set h = ground (arith, set.most, set.upper)

module _ {E X O S : Type 0} (byte_size : E → ℕ) (c : Settings) (view : StorageView S (Slab E X O))
    (address : Bytes8) where
  -- A slab with the elements `xs` below it has taken the place of one that stood at the top of the
  -- tree of `f`.
  pub record Stands (d n : ℕ) (s s' : S) (id : SlabId) (x : Option X) (slab : ArraySlab E X)
      (xs : List E) (f : Footprint) : Type 0 where
    pub f' : Footprint
    pub below : IsUnder byte_size c view address s' d slab xs f'
    pub stored : view.held s' id ≡ ok (some (slab_of slab))
    pub own : (header_of slab).slab_id ≡ id
    pub extra : extra_data_of slab ≡ x
    pub apart : is_inlined slab ≡ false
    pub size : (header_of slab).size ≤ c.max_threshold + c.max_inline_array_element_size
    pub grows : Grows view address n s s' f f'

module _ {E X O S V : Type 0} (byte_size : E → ℕ) (c : Settings)
    (storage : SlabStorage S (Slab E X O)) (storable : Bytes8 → ℕ → V → Action S E)
    (view : StorageView S (Slab E X O)) (lawful : IsLawfulStorage storage view)
    (address : Bytes8) where
  settle_full-calm :
      (m : ArrayMetaDataSlab X) (child : ArraySlab E X) (j : ℕ) (t t' : S)
      → slab_is_full c child ≡ false
      → store_array_slab byte_size c storage (node m) t ≡ (ok tt, t')
      → settle_full byte_size c storage storable m child j t ≡ (ok m, t')
  unfolding settle_full
  settle_full-calm m child j t t' calm done =
      rw (settle_full, calm)
        (bind-ok (store_array_slab byte_size c storage (node m)) (λ _. pure m) tt t t' done)

  settle_full-split :
      (m m2 : ArrayMetaDataSlab X) (child l r : ArraySlab E X) (j : ℕ) (t t1 t2 t3 t4 : S)
      → slab_is_full c child ≡ true
      → split_slab byte_size c storage child t ≡ (ok (l, r), t1)
      → with_split m j (header_of l) (header_of r) ≡ ok m2
      → store_array_slab byte_size c storage l t1 ≡ (ok tt, t2)
      → store_array_slab byte_size c storage r t2 ≡ (ok tt, t3)
      → store_array_slab byte_size c storage (node m2) t3 ≡ (ok tt, t4)
      → settle_full byte_size c storage storable m child j t ≡ (ok m2, t4)
  unfolding settle_full split_child_slab
  settle_full-split m m2 child l r j t t1 t2 t3 t4 full split parent left right done =
      rw (settle_full, full, split_child_slab, split, parent)
        (bind-ok (store_array_slab byte_size c storage l) _ tt t1 t2 left
          ∙ (bind-ok (store_array_slab byte_size c storage r) _ tt t2 t3 right
              ∙ bind-ok (store_array_slab byte_size c storage (node m2)) (λ _. pure m2) tt t3 t4
                  done))

  module _ (set : IsSettings c) (d n : ℕ) (s t : S) (a m : ArrayMetaDataSlab X) (j : ℕ)
      (h : ArraySlabHeader) (xs zs : List E) (f g : Footprint)
      (p : Around byte_size c view address d s a.children_headers j h xs g)
      (there : get_elem? a.children_headers j ≡ some h)
      (own : (i : SlabId) → f i ≡ (SlabId_eq a.header.slab_id i || g i))
      (unshared : g a.header.slab_id ≡ false)
      (used : (i : SlabId) → f i ≡ true → view.used s i ≡ true) (child : ArraySlab E X)
      (re : Recounts a m j (header_of child)) (small : a.header.size ≤ c.max_threshold)
      (filled : 0 < length zs) (placed : h.slab_id.address ≡ address)
      (st : Stands byte_size c view address d n s t h.slab_id none child zs p.f_child) where
    settle_calm :
        slab_is_full c child ≡ false
        → (p' : ArrayMetaDataSlab X) × (s' : S) × (settle_full byte_size c storage storable m child
              j t
            ≡ (ok p', s'))
          × Stands byte_size c view address
              (suc d)
              (suc n)
              s
              s'
              a.header.slab_id
              a.extra_data
              (node p')
              (p.lead ++ (zs ++ p.rest))
              f
    unfolding settle_full header_of extra_data_of is_inlined slab_of
    settle_calm calm =
        let kid =
          Kid-IsHalf byte_size c storage view lawful address d t t h.slab_id child zs st.f'
            (record {
              below = st.below;
              own = st.own;
              small = slab_is_full-le c child set calm;
              filled = filled;
              inner = st.extra;
              apart = st.apart;
            })
            placed st.stored (λ i m o. refl) in
        let q =
          close byte_size c storage view lawful address d n s t a m j h (header_of child ∷ []) xs zs
            f g st.f' p own unshared used re.meta re.id re.headers
            (
              zs,
              [],
              st.f',
              λ _. false,
              kid,
              (refl, λ _. refl),
              sym (append-nil zs),
              record { all = λ i. ground arith; apart = λ i. ground arith },
            )
            st.grows in
        (
          m,
          q.state,
          settle_full-calm m child j t q.state calm q.done,
          record {
            f' = q.f';
            below = q.below;
            stored = ap (view.held q.state) (sym re.id) ∙ q.stored;
            own = re.id;
            extra = re.extra;
            apart = refl;
            size = omega (arith, re.size, small);
            grows = Grows-weaken view address n (suc n) s q.state f q.f' (omega arith) q.grows;
          },
        )

    settle_split :
        slab_is_full c child ≡ true
        → 0 < view.room t address
        → (p' : ArrayMetaDataSlab X) × (s' : S) × (settle_full byte_size c storage storable m child
              j t
            ≡ (ok p', s'))
          × Stands byte_size c view address
              (suc d)
              (suc n)
              s
              s'
              a.header.slab_id
              a.extra_data
              (node p')
              (p.lead ++ (zs ++ p.rest))
              f
    unfolding settle_full split_child_slab header_of extra_data_of is_inlined slab_of
    settle_split full room =
        let hs = a.children_headers in
        let q =
          split_kids byte_size c storage view lawful address d t child zs st.f' set st.below
            st.grows.taken (ap (λ (i : SlabId). i.address) st.own ∙ placed) st.extra st.apart full
            (omega (arith, st.size)) room in
        let (at_j, front, back) = get-replaced hs (drop (suc j) hs) j h (header_of child) there in
        let fits : m.header.size + array_slab_header_size < 2 ^ 30 =
          omega (arith, re.size, small, set.most, set.upper) in
        let (m2, split, meta2, headers2) =
          with_split_lem m re.meta j (header_of child) (header_of q.l) (header_of q.r)
            (ap (λ is. get_elem? is j) re.headers ∙ at_j) q.counts fits in
        let (id2, size2, extra2) =
          with_split_keeps m m2 j (header_of q.l) (header_of q.r) split fits in
        let headers : m2.children_headers
            ≡ take j hs ++ (header_of q.l ∷ header_of q.r ∷ drop (suc j) hs) =
          headers2
          ∙ (ap (λ is. take j is ++ header_of q.l ∷ header_of q.r ∷ drop (suc j) is) re.headers
              ∙ λ i. front i ++ header_of q.l ∷ header_of q.r ∷ back i) in
        let e =
          close byte_size c storage view lawful address d (n + 1) s q.state a m2 j h
            (header_of q.l ∷ header_of q.r ∷ []) xs zs f g q.k p own unshared used meta2
            (id2 ∙ re.id) headers q.kids
            (Grows-trans view address n 1 s t q.state p.f_child st.f' q.k st.grows q.grows) in
        (
          m2,
          e.state,
          settle_full-split m m2 child q.l q.r j t q.split_state q.left_state q.state e.state full
              q.split split q.left q.right e.done,
          record {
            f' = e.f';
            below = e.below;
            stored = ap (view.held e.state) (sym (id2 ∙ re.id)) ∙ e.stored;
            own = id2 ∙ re.id;
            extra = extra2 ∙ re.extra;
            apart = refl;
            size = omega (arith, size2, re.size, small, set.least, set.inline_limit);
            grows =
                Grows-weaken view address (n + 1) (suc n) s e.state f e.f' (omega arith) e.grows;
          },
        )

    -- Insert ends well in an inner node whose child has grown by one element.
    pub settle_full_lem :
        0 < view.room t address
        → (p' : ArrayMetaDataSlab X) × (s' : S) × (settle_full byte_size c storage storable m child
              j t
            ≡ (ok p', s'))
          × Stands byte_size c view address
              (suc d)
              (suc n)
              s
              s'
              a.header.slab_id
              a.extra_data
              (node p')
              (p.lead ++ (zs ++ p.rest))
              f
    settle_full_lem room = elim (Bool-cases (slab_is_full c child)) [
      | inl full ↦ settle_split full room
      | inr calm ↦ settle_calm calm
    ]
