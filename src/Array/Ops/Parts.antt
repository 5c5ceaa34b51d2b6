-- ===== src/Array/Ops/Parts.antt =====
-- The children of an inner node before and after a position, with the elements and the slabs that
-- they stand for.
use mathlib.Core.List.{append_assoc}
use atree.Prelude.{
  ℕ, zero, suc, ◌<◌, ◌≡◌, ◌∙◌, ap, sym, refl, false, ◌||◌, ◌&&◌, some, List, [], ◌∷◌, ◌++◌, length,
  length-append, take, drop, get_elem?, arith,
}
use atree.Bytes.{Bytes8}
use atree.Ids.{SlabId}
use atree.Storage.Interface.{StorageView}
use atree.Settings.{Settings}
use atree.Array.Slab.{ArraySlabHeader, Slab}
use atree.Array.Meta.Search.{before}
use atree.Array.Ops.Under.{Footprint, Joins, HasChild, HasChildren, IsUnder, count-IsUnder}

module _ {E X O S : Type 0} (byte_size : E → ℕ) (c : Settings) (view : StorageView S (Slab E X O))
    (address : Bytes8) where
  -- Children of a node whose trees have depth `d`.
  abbrev pub Kids : ℕ → S → List ArraySlabHeader → List E → Footprint → Type 0
  Kids d s hs xs f =
      HasChildren byte_size c view address (IsUnder byte_size c view address s d) s hs xs f

  abbrev pub Kid : ℕ → S → ArraySlabHeader → List E → Footprint → Type 0
  Kid d s h ys f = HasChild byte_size c view address (IsUnder byte_size c view address s d) s h ys f

  pub Kids-join :
      (d : ℕ) (s : S) (hs is : List ArraySlabHeader) (xs ys : List E) (f g k : Footprint)
      → Kids d s hs xs f
      → Kids d s is ys g
      → Joins k f g
      → Kids d s (hs ++ is) (xs ++ ys) k
  Kids-join d s [] is xs ys f g k (e, none_in) u joins =
      let same : g ≡ k = λ i j. g-eq j i in rw (e, sym same) u
    where
      g-eq : (j : SlabId) → g j ≡ k j
      g-eq j = ground (arith, joins.all j, none_in j)
  Kids-join d s (h ∷ hs) is xs ys f g k (us, vs, f1, f2, has, more, split, parts) u joins =
      let rest : Footprint = λ j. f2 j || g j in
      (
        us,
        vs ++ ys,
        f1,
        rest,
        has,
        Kids-join d s hs is vs ys f2 g rest more u (record {
          all = λ j. refl;
          apart = λ j. ground (arith, joins.apart j, parts.all j, parts.apart j);
        }),
        ap (λ zs. zs ++ ys) split ∙ append_assoc us vs ys,
        record {
          all = λ j. ground (arith, joins.all j, parts.all j);
          apart = λ j. ground (arith, joins.apart j, parts.all j, parts.apart j);
        },
      )

  -- The children around position `j`.
  pub record Around (d : ℕ) (s : S) (hs : List ArraySlabHeader) (j : ℕ) (h : ArraySlabHeader)
      (xs : List E) (f : Footprint) : Type 0 where
    pub lead : List E
    pub ys : List E
    pub rest : List E
    pub f_lead : Footprint
    pub f_child : Footprint
    pub f_rest : Footprint
    pub front : Kids d s (take j hs) lead f_lead
    pub has : Kid d s h ys f_child
    pub back : Kids d s (drop (suc j) hs) rest f_rest
    pub starts : length lead ≡ before hs j
    pub parts : xs ≡ lead ++ (ys ++ rest)
    pub all : (i : SlabId) → f i ≡ (f_lead i || (f_child i || f_rest i))
    pub apart_lead : (i : SlabId) → (f_lead i && (f_child i || f_rest i)) ≡ false
    pub apart_child : (i : SlabId) → (f_child i && f_rest i) ≡ false

  pub count-Kid :
      (d : ℕ) (s : S) (h : ArraySlabHeader) (ys : List E) (f : Footprint)
      → Kid d s h ys f
      → h.count ≡ length ys
  count-Kid d s h ys f has =
      ap (λ (g : ArraySlabHeader). g.count) (sym has.headed)
      ∙ count-IsUnder byte_size c view address s d has.child ys f has.below

  pub around :
      (d : ℕ) (s : S) (hs : List ArraySlabHeader) (xs : List E) (f : Footprint) (j : ℕ)
      (h : ArraySlabHeader)
      → get_elem? hs j ≡ some h
      → Kids d s hs xs f
      → Around d s hs j h xs f
  around d s [] xs f j h e u = absurd (ground (arith, e))
  around d s (g ∷ hs) xs f zero h e (ys, zs, f1, f2, has, more, split, joins) =
      let same : g ≡ h = ground (arith, e) in
      record {
        lead = [];
        ys = ys;
        rest = zs;
        f_lead = λ _. false;
        f_child = f1;
        f_rest = f2;
        front = (refl, λ _. refl);
        has = rw (sym same) has;
        back = more;
        starts = refl;
        parts = split;
        all = joins.all;
        apart_lead = λ _. refl;
        apart_child = joins.apart;
      }
  around d s (g ∷ hs) xs f (suc j) h e (ys, zs, f1, f2, has, more, split, joins) =
      let p = around d s hs zs f2 j h e more in
      let front_f : Footprint = λ i. f1 i || p.f_lead i in
      record {
        lead = ys ++ p.lead;
        ys = p.ys;
        rest = p.rest;
        f_lead = front_f;
        f_child = p.f_child;
        f_rest = p.f_rest;
        front = (
          ys,
          p.lead,
          f1,
          p.f_lead,
          has,
          p.front,
          refl,
          record { all = λ i. refl; apart = λ i. ground (arith, joins.apart i, p.all i) },
        );
        has = p.has;
        back = p.back;
        starts = omega (arith, length-append ys p.lead, p.starts, count-Kid d s g ys f1 has);
        parts = split ∙ (ap (◌++◌ ys) p.parts ∙ sym (append_assoc ys p.lead (p.ys ++ p.rest)));
        all = λ i. ground (arith, joins.all i, p.all i);
        apart_lead = λ i. ground (arith, joins.apart i, p.all i, p.apart_lead i);
        apart_child = p.apart_child;
      }

  -- Other children in the place of one, for trees apart from those that stay.
  pub replaced :
      (d : ℕ) (s t : S) (hs is : List ArraySlabHeader) (j : ℕ) (h : ArraySlabHeader)
      (xs zs : List E) (f g k : Footprint) (p : Around d s hs j h xs f)
      → Kids d t (take j hs) p.lead p.f_lead
      → Kids d t (drop (suc j) hs) p.rest p.f_rest
      → Kids d t is zs g
      → ((i : SlabId) → k i ≡ (p.f_lead i || (g i || p.f_rest i)))
      → ((i : SlabId) → ((p.f_lead i || p.f_rest i) && g i) ≡ false)
      → Kids d t (take j hs ++ (is ++ drop (suc j) hs)) (p.lead ++ (zs ++ p.rest)) k
  replaced d s t hs is j h xs zs f g k p front back new all apart =
      let behind : Footprint = λ i. g i || p.f_rest i in
      Kids-join d t (take j hs) (is ++ drop (suc j) hs) p.lead (zs ++ p.rest) p.f_lead behind k
        front
        (Kids-join d t is (drop (suc j) hs) zs p.rest g p.f_rest behind new back
          (record { all = λ i. refl; apart = λ i. ground (arith, apart i) }))
        (record { all = all; apart = λ i. ground (arith, apart i, p.apart_lead i) })

  -- The first `n` children and the others.
  pub Kids-split :
      (n d : ℕ) (s : S) (hs : List ArraySlabHeader) (xs : List E) (f : Footprint)
      → Kids d s hs xs f
      → (ys : List E) × (zs : List E) × (g : Footprint) × (k : Footprint) × Kids d s
          (take n hs)
          ys
          g
        × Kids d s (drop n hs) zs k
        × (xs ≡ ys ++ zs)
        × Joins f g k
  Kids-split zero d s hs xs f u = (
    [],
    xs,
    λ _. false,
    f,
    (refl, λ _. refl),
    u,
    refl,
    record { all = λ _. refl; apart = λ _. refl },
  )
  Kids-split (suc n) d s [] xs f (e, none_in) = (
    [],
    xs,
    f,
    f,
    (refl, none_in),
    (e, none_in),
    refl,
    record { all = λ j. ground (arith, none_in j); apart = λ j. ground (arith, none_in j) },
  )
  Kids-split (suc n) d s (h ∷ hs) xs f (us, vs, f1, f2, has, more, split, joins) =
      let (ys, zs, g, k, front, back, parts, inner) = Kids-split n d s hs vs f2 more in
      let front_f : Footprint = λ j. f1 j || g j in
      (
        us ++ ys,
        zs,
        front_f,
        k,
        (
          us,
          ys,
          f1,
          g,
          has,
          front,
          refl,
          record { all = λ _. refl; apart = λ j. ground (arith, joins.apart j, inner.all j) },
        ),
        back,
        split ∙ (ap (◌++◌ us) parts ∙ sym (append_assoc us ys zs)),
        record {
          all = λ j. ground (arith, joins.all j, inner.all j);
          apart = λ j. ground (arith, joins.apart j, inner.all j, inner.apart j);
        },
      )

  pub Kids-filled :
      (d : ℕ) (s : S) (hs : List ArraySlabHeader) (xs : List E) (f : Footprint)
      → Kids d s hs xs f
      → 0 < length hs
      → 0 < length xs
  Kids-filled d s [] xs f u l = absurd (omega arith)
  Kids-filled d s (h ∷ hs) xs f (ys, zs, g, k, has, more, split, joins) l =
      omega (arith, has.filled, count-Kid d s h ys g has, length-append ys zs, ap length split)
