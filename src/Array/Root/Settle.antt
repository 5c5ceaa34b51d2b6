-- ===== src/Array/Root/Settle.antt =====
-- The end of set and Insert of an array (array.go): a full root is split.
use atree.Prelude.{
  ℕ, suc, ◌+◌, ◌≤◌, ◌<◌, ◌≡◌, ◌^◌, ◌∙◌, ap, refl, some, Option, List, length, arith, Bool-cases,
  inl, inr,
}
use atree.Bytes.{Bytes8}
use atree.Ids.{SlabId}
use atree.SlabId.{ValueId}
use atree.Errors.{ok}
use atree.Action.{Action}
use atree.Storage.Interface.{SlabStorage, StorageView, IsLawfulStorage}
use atree.Settings.{Settings, IsSettings}
use atree.Array.Slab.{Slab}
use atree.Array.Tree.{ArraySlab, node, header_of}
use atree.Array.Ops.{slab_is_full}
use atree.Array.Ops.Under.{Footprint}
use atree.Array.Ops.Grows.{Grows-trans, Grows-weaken}
use atree.Array.Ops.Settle.{Stands, slab_is_full-le}
use atree.Array.Ops.Descend.{Stands-as}
use atree.Array.Root.{Array, split_root_if_full}
use atree.Array.Root.Grow.{split_root_lem}

module _ {E X O S V : Type 0} (byte_size : E → ℕ) (c : Settings)
    (storage : SlabStorage S (Slab E X O)) (storable : Bytes8 → ℕ → V → Action S E)
    (value_id : V → Option ValueId) (stored_value : E → Action S V)
    (view : StorageView S (Slab E X O)) (lawful : IsLawfulStorage storage view)
    (address : Bytes8) where
  -- One change after another.
  Stands-then :
      (d e m n : ℕ) (s t u : S) (id : SlabId) (x : Option X) (slab slab' : ArraySlab E X)
      (xs : List E) (f : Footprint) (st : Stands byte_size c view address d m s t id x slab xs f)
      → Stands byte_size c view address e n t u id x slab' xs st.f'
      → Stands byte_size c view address e (m + n) s u id x slab' xs f
  Stands-then d e m n s t u id x slab slab' xs f st st' = record {
    f' = st'.f';
    below = st'.below;
    stored = st'.stored;
    own = st'.own;
    extra = st'.extra;
    apart = st'.apart;
    size = st'.size;
    grows = Grows-trans view address m n s t u f st.f' st'.f' st.grows st'.grows;
  }

  Stands-weaken :
      (d m n : ℕ) (s t : S) (id : SlabId) (x : Option X) (slab : ArraySlab E X) (xs : List E)
      (f : Footprint)
      → m ≤ n
      → Stands byte_size c view address d m s t id x slab xs f
      → Stands byte_size c view address d n s t id x slab xs f
  Stands-weaken d m n s t id x slab xs f l st = record {
    f' = st.f';
    below = st.below;
    stored = st.stored;
    own = st.own;
    extra = st.extra;
    apart = st.apart;
    size = st.size;
    grows = Grows-weaken view address m n s t f st.f' l st.grows;
  }

  pub settle_root :
      (d n : ℕ) (s0 s : S) (a : Array E X S) (id : SlabId) (x : X) (xs : List E) (f : Footprint)
      → IsSettings c
      → Stands byte_size c view address d n s0 s id (some x) a.root xs f
      → id.address ≡ address
      → length xs < 2 ^ 30
      → 2 ≤ view.room s address
      → (r : ArraySlab E X) × (d' : ℕ) × (s' : S) × (split_root_if_full byte_size c storage storable
            value_id stored_value a s
          ≡ (ok (record a { root = r }), s'))
        × Stands byte_size c view address d' (n + 2) s0 s' id (some x) r xs f
        × ((header_of r).size ≤ c.max_threshold)
        × (d' ≤ suc d)
  unfolding split_root_if_full header_of
  settle_root d n s0 s a id x xs f set st placed few left =
      elim (Bool-cases (slab_is_full c a.root)) [
        | inr calm ↦ (
          a.root,
          d,
          s,
          rw (split_root_if_full, calm) refl,
          Stands-weaken d n (n + 2) s0 s id (some x) a.root xs f (omega arith) st,
          slab_is_full-le c a.root set calm,
          omega arith,
        )
        | inl full ↦
            let (m, s', done, st', small) =
              split_root_lem byte_size c storage storable value_id stored_value view lawful address
                d s a x xs st.f' set st.below st.grows.taken
                (ap (λ (i : SlabId). i.address) st.own ∙ placed) st.extra st.apart full st.size few
                left in
            (
              node m,
              suc d,
              s',
              rw (split_root_if_full, full) done,
              Stands-then d (suc d) n 2 s0 s s' id (some x) a.root (node m) xs f st (
                  Stands-as byte_size c storage storable view lawful address (suc d) 2 s s'
                    (header_of a.root).slab_id id (some x) (some x) (node m) xs st.f' st.own refl
                    st'),
              small,
              omega arith,
            )
      ]
