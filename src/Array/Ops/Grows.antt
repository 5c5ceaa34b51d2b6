-- ===== src/Array/Ops/Grows.antt =====
-- What an operation on a tree of slabs of an array does to the storage, and the split of a slab
-- (array_slab.go, array_metadata_slab.go) in these terms.
use mathlib.Core.Bool.{true≢false}
use atree.Prelude.{
  ℕ, zero, suc, ◌+◌, ◌<◌, ◌≤◌, ◌≡◌, ◌∙◌, ap, sym, refl, true, false, none, some, List,
  if◌then◌else◌, length, ltb, arith, Bool-cases, inl, inr,
}
use atree.Bytes.{Bytes8}
use atree.Ids.{SlabId, SlabId_eq}
use atree.Errors.{ok, wrap_result}
use atree.Storage.Interface.{SlabStorage, StorageView, Issues, IsLawfulStorage}
use atree.Storage.Keys.{SlabId_eq_refl}
use atree.Settings.{Settings, IsSettings}
use atree.Array.Slab.{Slab}
use atree.Array.Data.Rebalance
use atree.Array.Meta
use atree.Array.Tree.{
  ArraySlab, leaf, node, header_of, slab_of, store_array_slab, split_slab, is_inlined,
  extra_data_of,
}
use atree.Array.Ops.{slab_is_full}
use atree.Array.Ops.Under.{Footprint, IsUnder}
use atree.Array.Ops.Halve.{Halves, halve_leaf, halve_node}

module _ {S Slab : Type 0} (view : StorageView S Slab) (address : Bytes8) where
  -- From `s` to `s'`, the slabs of a tree turn from `f` into `f'`: no other slab that was given an
  -- ID changes, and at most `n` new IDs are given out.
  pub record Grows (n : ℕ) (s s' : S) (f f' : Footprint) : Type 0 where
    pub frame : (j : SlabId) → view.used s j ≡ true → f j ≡ false → view.held s' j ≡ view.held s j
    pub fresh : (j : SlabId) → f' j ≡ true → f j ≡ false → view.used s j ≡ false
    pub kept : (j : SlabId) → view.used s j ≡ true → view.used s' j ≡ true
    pub taken : (j : SlabId) → f' j ≡ true → view.used s' j ≡ true
    pub room : view.room s address ≤ view.room s' address + n

  pub Grows-trans :
      (m n : ℕ) (s t u : S) (f g k : Footprint)
      → Grows m s t f g
      → Grows n t u g k
      → Grows (m + n) s u f k
  Grows-trans m n s t u f g k a b = record {
    frame = λ j used out. elim (Bool-cases (g j)) [
      | inl in_g ↦ absurd (true≢false (sym used ∙ a.fresh j in_g out))
      | inr not_g ↦ b.frame j (a.kept j used) not_g ∙ a.frame j used out
    ];
    fresh = λ j in_k out. elim (Bool-cases (g j)) [
      | inl in_g ↦ a.fresh j in_g out
      | inr not_g ↦ elim (Bool-cases (view.used s j)) [
        | inl used ↦ absurd (true≢false (sym (a.kept j used) ∙ b.fresh j in_k not_g))
        | inr unused ↦ unused
      ]
    ];
    kept = λ j used. b.kept j (a.kept j used);
    taken = b.taken;
    room = omega (arith, a.room, b.room);
  }

  pub Grows-weaken :
      (m n : ℕ) (s t : S) (f g : Footprint) → m ≤ n → Grows m s t f g → Grows n s t f g
  Grows-weaken m n s t f g l a = record {
    frame = a.frame;
    fresh = a.fresh;
    kept = a.kept;
    taken = a.taken;
    room = omega (arith, a.room);
  }

module _ {E X O S : Type 0} (byte_size : E → ℕ) (c : Settings)
    (storage : SlabStorage S (Slab E X O)) (view : StorageView S (Slab E X O))
    (lawful : IsLawfulStorage storage view) (address : Bytes8) where
  -- A state with one slab written.
  pub record Writes (slab : ArraySlab E X) (s s' : S) : Type 0 where
    pub held :
        (j : SlabId)
        → view.held s' j ≡ (
            if SlabId_eq (header_of slab).slab_id j
            then ok (some (slab_of slab))
            else view.held s j)
    pub used : (j : SlabId) → view.used s' j ≡ view.used s j
    pub room : (a : Bytes8) → view.room s' a ≡ view.room s a

  pub Writes-other :
      (slab : ArraySlab E X) (s s' : S) (id j : SlabId)
      → Writes slab s s'
      → (header_of slab).slab_id ≡ id
      → SlabId_eq id j ≡ false
      → view.held s' j ≡ view.held s j
  Writes-other slab s s' id j w own other = w.held j ∙ rw (ap (λ i. SlabId_eq i j) own, other) refl

  pub Writes-self :
      (slab : ArraySlab E X) (s s' : S) (id : SlabId)
      → Writes slab s s'
      → (header_of slab).slab_id ≡ id
      → view.held s' id ≡ ok (some (slab_of slab))
  Writes-self slab s s' id w own =
      w.held id ∙ rw (ap (λ i. SlabId_eq i id) own, SlabId_eq_refl id) refl

  pub store_array_slab_lem :
      (slab : ArraySlab E X) (s : S)
      → view.used s (header_of slab).slab_id ≡ true
      → (s' : S) × (store_array_slab byte_size c storage slab s ≡ (ok tt, s')) × Writes slab s s'
  unfolding wrap_result
  store_array_slab_lem slab s used =
      let (s', e, held, same) = lawful.store-held (header_of slab).slab_id (slab_of slab) s used in
      (s', rw e refl, record { held = held; used = same.used; room = same.room })

  pub split_slab_lem :
      (d : ℕ) (s : S) (child : ArraySlab E X) (ys : List E) (f : Footprint)
      → IsSettings c
      → IsUnder byte_size c view address s d child ys f
      → ((j : SlabId) → f j ≡ true → view.used s j ≡ true)
      → (header_of child).slab_id.address ≡ address
      → extra_data_of child ≡ none
      → is_inlined child ≡ false
      → slab_is_full c child ≡ true
      → (header_of child).size ≤ c.max_threshold + c.max_inline_array_element_size + 16
      → 0 < view.room s address
      → (l : ArraySlab E X) × (r : ArraySlab E X) × (id : SlabId) × (s' : S) × (split_slab byte_size
            c storage child s
          ≡ (ok (l, r), s'))
        × Issues view address id s s'
        × Halves byte_size c view address d s child l r ys f id
  unfolding split_slab Rebalance.split Meta.split wrap_result IsUnder slab_is_full header_of
      extra_data_of is_inlined
  split_slab_lem zero s (leaf a) ys f set u used placed inner apart full room left =
      let (id, s', e, issues) = lawful.generate-Issues address s left in
      let fresh : f id ≡ false = ground (arith, used id, issues.fresh) in
      let (h, two) =
        halve_leaf byte_size c view address set s id f fresh a ys u inner apart full room in
      let guard : ltb (length a.elements) 2 ≡ false = ground arith in
      (_, _, id, s', rw (guard, placed, e) refl, issues, h)
  split_slab_lem (suc d) s (leaf a) ys f set u used placed inner apart full room left = absurd u
  split_slab_lem zero s (node a) ys f set u used placed inner apart full room left = absurd u
  split_slab_lem (suc d) s (node a) ys f set u used placed inner apart full room left =
      let (id, s', e, issues) = lawful.generate-Issues address s left in
      let fresh : f id ≡ false = ground (arith, used id, issues.fresh) in
      let (h, two) =
        halve_node byte_size c view address set s id f fresh d a ys u inner full room in
      let guard : ltb (length a.children_headers) 2 ≡ false = ground arith in
      (_, _, id, s', rw (guard, placed, e) refl, issues, h)
