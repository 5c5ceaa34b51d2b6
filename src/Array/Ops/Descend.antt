-- ===== src/Array/Ops/Descend.antt =====
-- The way of Insert down to a child and back in an inner node (array_metadata_slab.go).
use mathlib.Core.Path.{subst}
use atree.Prelude.{
  ℕ, zero, suc, ◌+◌, ◌<◌, ◌≤◌, ◌≡◌, ◌^◌, ◌∙◌, ap, sym, refl, true, false, ◌||◌, none, some, List,
  [], ◌∷◌, ◌++◌, length, length-append, insert_at, get_elem?, Option, ltb, arith,
}
use atree.Bytes.{Bytes8}
use atree.Ids.{SlabId, SlabId_eq}
use atree.Errors.{ok}
use atree.Action.{Action}
use atree.Storage.Interface.{SlabStorage, StorageView, IsLawfulStorage}
use atree.Settings.{Settings, IsSettings}
use atree.Array.Slab.{ArraySlabHeader, ArrayMetaDataSlab, Slab}
use atree.Array.Meta.Shape.{IsMeta}
use atree.Array.Tree.{ArraySlab, node, header_of, get_array_slab}
use atree.Array.Ops.{insert_in_slab, insert_place, with_one_more, settle_full}
use atree.Array.Ops.Under.{Footprint, IsUnder, count-IsUnder, AreFilled-HasChildren}
use atree.Array.Ops.Parts.{Kids, Around, around, count-Kid}
use atree.Array.Ops.Place.{insert_place-Accepts, insert_at-parts}
use atree.Array.Ops.Count.{with_one_more_lem}
use atree.Array.Ops.Step.{Keeps, get_array_slab_lem}
use atree.Array.Ops.Settle.{Stands, settle_full_lem}

pub length-insert_at :
    {A : Type 0} (xs : List A) (i : ℕ) (v : A)
    → i ≤ length xs
    → length (insert_at xs i v) ≡ length xs + 1
length-insert_at xs zero v l = omega arith
length-insert_at [] (suc i) v l = absurd (omega arith)
length-insert_at (x ∷ xs) (suc i) v l = omega (arith, length-insert_at xs i v (omega arith))

same_elements :
    {A : Type 0} (lead ys rest xs : List A) (i index : ℕ) (v : A)
    → xs ≡ lead ++ (ys ++ rest)
    → i ≤ length ys
    → length lead + i ≡ index
    → lead ++ (insert_at ys i v ++ rest) ≡ insert_at xs index v
same_elements lead ys rest xs i index v parts l at_index =
    sym (insert_at-parts lead ys rest i v l)
    ∙ (ap (λ zs. insert_at zs (length lead + i) v) (sym parts)
        ∙ ap (λ n. insert_at xs n v) at_index)

module _ {E X O S V : Type 0} (byte_size : E → ℕ) (c : Settings)
    (storage : SlabStorage S (Slab E X O)) (storable : Bytes8 → ℕ → V → Action S E)
    (view : StorageView S (Slab E X O)) (lawful : IsLawfulStorage storage view)
    (address : Bytes8) where
  insert_in_slab-node :
      (fuel : ℕ) (a m m2 : ArrayMetaDataSlab X) (index j i : ℕ) (id : SlabId) (value : V)
      (child child' : ArraySlab E X) (s s1 s2 s3 : S)
      → index ≤ a.header.count
      → insert_place a index ≡ ok (j, i, id)
      → get_array_slab byte_size c storage id s ≡ (ok child, s1)
      → insert_in_slab byte_size c storage storable fuel child address i value s1 ≡ (ok child', s2)
      → with_one_more a j (header_of child') ≡ ok m
      → settle_full byte_size c storage storable m child' j s2 ≡ (ok m2, s3)
      → insert_in_slab byte_size c storage storable (suc fuel) (node a) address index value s
        ≡ (ok (node m2), s3)
  unfolding insert_in_slab
  insert_in_slab-node fuel a m m2 index j i id value child child' s s1 s2 s3 l place read down more
        settled =
      let guard : ltb a.header.count index ≡ false = ground arith in
      rw (guard, place, read, down, more, settled) refl

  some_children :
      (d : ℕ) (s : S) (hs : List ArraySlabHeader) (xs : List E) (g : Footprint)
      → Kids byte_size c view address d s hs xs g
      → 0 < length xs
      → 0 < length hs
  some_children d s [] xs g u l = absurd (omega (arith, ap length u.0))
  some_children d s (h ∷ hs) xs g u l = omega arith

  -- A state in which the same is held may stand before.
  pub Stands-before :
      (d n : ℕ) (s s1 s2 : S) (id : SlabId) (slab : ArraySlab E X) (xs : List E) (f : Footprint)
      → Keeps byte_size c storage view lawful address s s1
      → Stands byte_size c view address d n s1 s2 id none slab xs f
      → Stands byte_size c view address d n s s2 id none slab xs f
  Stands-before d n s s1 s2 id slab xs f keeps st = record {
    f' = st.f';
    below = st.below;
    stored = st.stored;
    own = st.own;
    extra = st.extra;
    apart = st.apart;
    size = st.size;
    grows = record {
      frame = λ j m out. st.grows.frame j (keeps.issued.used j ∙ m) out ∙ keeps.held j;
      fresh = λ j m out. sym (keeps.issued.used j) ∙ st.grows.fresh j m out;
      kept = λ j m. st.grows.kept j (keeps.issued.used j ∙ m);
      taken = st.grows.taken;
      room = omega (arith, st.grows.room, keeps.issued.room address);
    };
  }

  pub Stands-as :
      (d n : ℕ) (s s' : S) (id id' : SlabId) (x x' : Option X) (slab : ArraySlab E X) (xs : List E)
      (f : Footprint)
      → id ≡ id'
      → x ≡ x'
      → Stands byte_size c view address d n s s' id x slab xs f
      → Stands byte_size c view address d n s s' id' x' slab xs f
  Stands-as d n s s' id id' x x' slab xs f p q st =
      subst (λ y. Stands byte_size c view address d n s s' id' y slab xs f) q
        (subst (λ i. Stands byte_size c view address d n s s' i x slab xs f) p st)

  -- The child that Insert goes to, read from the storage.
  pub record Descent (d : ℕ) (s : S) (a : ArrayMetaDataSlab X) (xs : List E) (g : Footprint)
      (index : ℕ) : Type 0 where
    pub j : ℕ
    pub i : ℕ
    pub h : ArraySlabHeader
    pub place : insert_place a index ≡ ok (j, i, h.slab_id)
    pub there : get_elem? a.children_headers j ≡ some h
    pub p : Around byte_size c view address d s a.children_headers j h xs g
    pub many : h.count ≡ length p.ys
    pub fits_in : i ≤ length p.ys
    pub at_index : length p.lead + i ≡ index
    pub total : length p.ys ≤ length xs
    pub state : S
    pub read : get_array_slab byte_size c storage h.slab_id s ≡ (ok p.has.child, state)
    pub keeps : Keeps byte_size c storage view lawful address s state

  pub descend :
      (d : ℕ) (s : S) (a : ArrayMetaDataSlab X) (xs : List E) (g : Footprint) (index : ℕ)
      → IsMeta a
      → Kids byte_size c view address d s a.children_headers xs g
      → a.header.count ≡ length xs
      → 0 < length xs
      → index ≤ length xs
      → Descent d s a xs g index
  descend d s a xs g index meta children count some_xs l =
      let (j, i, h, place, acc) =
        insert_place-Accepts a index meta
          (AreFilled-HasChildren byte_size c view address (IsUnder byte_size c view address s d) s
            a.children_headers xs g children)
          (some_children d s a.children_headers xs g children some_xs) (omega (arith, count)) in
      let p = around byte_size c view address d s a.children_headers xs g j h acc.child children in
      let many = count-Kid byte_size c view address d s h p.ys p.f_child p.has in
      let (s1, read, keeps) =
        get_array_slab_lem byte_size c storage view lawful address h.slab_id p.has.child s
          p.has.stored in
      let total : length xs ≡ length p.lead + (length p.ys + length p.rest) =
        ap length p.parts
        ∙ (length-append p.lead (p.ys ++ p.rest)
            ∙ ap (◌+◌ (length p.lead)) (length-append p.ys p.rest)) in
      record {
        j = j;
        i = i;
        h = h;
        place = place;
        there = acc.child;
        p = p;
        many = many;
        fits_in = omega (arith, acc.inside, many);
        at_index = omega (arith, p.starts, acc.at_index);
        total = omega (arith, total);
        state = s1;
        read = read;
        keeps = keeps;
      }

  -- The way back, from a child with the element in it.
  pub ascend :
      (fuel d : ℕ) (s s2 : S) (a : ArrayMetaDataSlab X) (xs : List E) (f g : Footprint) (index : ℕ)
      (value : V) (e : E) (q : Descent d s a xs g index) (child' : ArraySlab E X)
      → IsSettings c
      → IsMeta a
      → ((i : SlabId) → f i ≡ (SlabId_eq a.header.slab_id i || g i))
      → g a.header.slab_id ≡ false
      → ((i : SlabId) → f i ≡ true → view.used s i ≡ true)
      → a.header.size ≤ c.max_threshold
      → a.header.count + 1 < 2 ^ 31
      → index ≤ a.header.count
      → suc d ≤ view.room s address
      → insert_in_slab byte_size c storage storable fuel q.p.has.child address q.i value q.state
        ≡ (ok child', s2)
      → Stands byte_size c view address d d s s2 q.h.slab_id none child'
          (insert_at q.p.ys q.i e)
          q.p.f_child
      → (slab' : ArraySlab E X) × (s' : S) × (insert_in_slab byte_size c storage storable
            (suc fuel)
            (node a)
            address
            index
            value
            s
          ≡ (ok slab', s'))
        × Stands byte_size c view address
            (suc d)
            (suc d)
            s
            s'
            a.header.slab_id
            a.extra_data
            slab'
            (insert_at xs index e)
            f
  ascend fuel d s s2 a xs f g index value e q child' set meta own unshared used low few l room down
        st =
      let p = q.p in
      let zs = insert_at p.ys q.i e in
      let long = length-insert_at p.ys q.i e q.fits_in in
      let one_more : (header_of child').count ≡ q.h.count + 1 =
        count-IsUnder byte_size c view address s2 d child' zs st.f' st.below
        ∙ omega (arith, long, q.many) in
      let (m, more, re) =
        with_one_more_lem a meta q.j q.h (header_of child') q.there one_more few in
      let (m2, s3, settled, end) =
        settle_full_lem byte_size c storage storable view lawful address set d d s s2 a m q.j q.h xs
          zs f g p q.there own unshared used child' re low (omega (arith, long)) p.has.placed st
          (omega (arith, st.grows.room, room)) in
      (
        node m2,
        s3,
        insert_in_slab-node fuel a m m2 index q.j q.i q.h.slab_id value p.has.child child' s q.state
            s2 s3 l q.place q.read down more settled,
        subst
            (λ ys.
              Stands byte_size c view address (suc d) (suc d) s s3 a.header.slab_id a.extra_data
                (node m2) ys f)
            (same_elements p.lead p.ys p.rest xs q.i index e p.parts q.fits_in q.at_index) end,
      )
