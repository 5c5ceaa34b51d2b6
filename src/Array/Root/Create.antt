-- ===== src/Array/Root/Create.antt =====
-- NewArray and Append (array.go) on the sequence of an array's elements.
use mathlib.Core.Path.{subst}
use atree.Prelude.{
  ℕ, suc, ◌+◌, ◌≤◌, ◌<◌, ◌≡◌, ◌^◌, ◌∙◌, ap, sym, refl, true, false, none, some, Option, List, [],
  ◌∷◌, ◌++◌, length, insert_at, arith, inl,
}
use atree.Bytes.{Bytes8}
use atree.Ids.{SlabId, SlabId_eq, SlabId_eq_iff}
use atree.SlabId.{ValueId}
use atree.Storage.Keys.{SlabId_eq_comm}
use atree.Array.Ops.Pair.{apart_of}
use atree.Errors.{ok, wrap_result}
use atree.Action.{Action, pure, bind-ok}
use atree.Storage.Interface.{SlabStorage, StorageView, IsLawfulStorage}
use atree.Settings.{Settings, IsSettings}
use atree.Array.Slab.{Slab}
use atree.Array.Data.{get_prefix_size}
use atree.Array.Tree.{ArraySlab, header_of, slab_of, is_inlined, extra_data_of, store_array_slab}
use atree.Array.Ops.Under.{Footprint, IsUnder, count-IsUnder}
use atree.Array.Ops.Grows.{Grows, store_array_slab_lem, Writes-other, Writes-self}
use atree.Array.Root.{Array, new_array, empty_root, insert_value, append, count}
use atree.Array.Root.Insert.{IsArray, insert_value_lem}

insert_at_end : {A : Type 0} (xs : List A) (v : A) → insert_at xs (length xs) v ≡ xs ++ v ∷ []
insert_at_end [] v = refl
insert_at_end (x ∷ xs) v = ap (◌∷◌ x) (insert_at_end xs v)

module _ {E X O S V : Type 0} (byte_size : E → ℕ) (c : Settings)
    (storage : SlabStorage S (Slab E X O)) (storable : Bytes8 → ℕ → V → Action S E)
    (value_id : V → Option ValueId) (stored_value : E → Action S V)
    (view : StorageView S (Slab E X O)) (lawful : IsLawfulStorage storage view)
    (address : Bytes8) where
  abbrev new_one : SlabId → X → Array E X S
  new_one id x = record {
    root = empty_root id (some x) false;
    parent_updater = none;
    mutable_element_index = [];
  }

  new_array-done :
      (s s1 s2 : S) (id : SlabId) (x : X)
      → storage.generate_slab_id address s ≡ (ok id, s1)
      → store_array_slab byte_size c storage (empty_root id (some x) false) s1 ≡ (ok tt, s2)
      → new_array byte_size c storage storable value_id stored_value address x s
        ≡ (ok (new_one id x), s2)
  unfolding new_array wrap_result
  new_array-done s s1 s2 id x generated done = rw generated (
      bind-ok (store_array_slab byte_size c storage (empty_root id (some x) false))
        (λ _. pure (new_one id x)) tt s1 s2 done)

  -- In a storage that keeps the promises of IsLawfulStorage, under settings as SetThreshold computes
  -- them, NewArray at an address with an ID left succeeds: the array holds no elements, its root is
  -- what the storage holds under its ID, which is the one new ID, and every slab under an ID given
  -- out before is held as before.
  pub new_array_lem :
      (s : S) (x : X)
      → IsSettings c
      → 0 < view.room s address
      → (a : Array E X S) × (s' : S) × (f : Footprint) × (new_array byte_size c storage storable
            value_id stored_value address x s
          ≡ (ok a, s'))
        × IsArray byte_size c storage storable value_id stored_value view lawful address s' 0 a x []
            f
        × (view.held s' (header_of a.root).slab_id ≡ ok (some (slab_of a.root)))
        × Grows view address 1 s s' (λ _. false) f
  unfolding empty_root IsUnder header_of is_inlined extra_data_of get_prefix_size
  new_array_lem s x set left =
      let (id, s1, generated, issues) = lawful.generate-Issues address s left in
      let root : ArraySlab E X = empty_root id (some x) false in
      let (s2, done, w) =
        store_array_slab_lem byte_size c storage view lawful address root s1 issues.taken in
      let is_new : (i : SlabId) → SlabId_eq id i ≡ true → id ≡ i = λ i. (SlabId_eq_iff id i).0 in
      (
        new_one id x,
        s2,
        SlabId_eq id,
        new_array-done s s1 s2 id x generated done,
        record {
          under = (omega arith, refl, tt, λ j. refl);
          used = λ j m. w.used j ∙ (ap (view.used s1) (sym (is_new j m)) ∙ issues.taken);
          placed = issues.at_address;
          extra = refl;
          apart = refl;
          small = omega (arith, set.least, set.upper);
          some_elements = inl refl;
          no_parent = refl;
          below = tt;
        },
        Writes-self byte_size c storage view lawful address root s1 s2 id w refl,
        record {
          frame = λ j u out.
              Writes-other byte_size c storage view lawful address root s1 s2 id j w refl
                (SlabId_eq_comm id j ∙ apart_of (view.used s) j id u issues.fresh)
              ∙ issues.held j;
          fresh = λ j m out. ap (view.used s) (sym (is_new j m)) ∙ issues.fresh;
          kept = λ j u. w.used j ∙ issues.kept j u;
          taken = λ j m. w.used j ∙ (ap (view.used s1) (sym (is_new j m)) ∙ issues.taken);
          room = omega (arith, w.room address, issues.room);
        },
      )

  module _ (set : IsSettings c) (value : V) (e : E) (some_size : 0 < byte_size e)
      (small : byte_size e ≤ c.max_inline_array_element_size)
      (made : (t : S) → storable address c.max_inline_array_element_size value t ≡ (ok e, t)) where
    -- In a storage that keeps the promises of IsLawfulStorage, under settings as SetThreshold computes
    -- them, for a value whose storable is an element of one byte to the inline limit that is made
    -- without a change of the storage: Append to an array without a parent, with a tree of depth d
    -- and the elements `xs`, on fuel above d, with d + 2 IDs left at the address and `xs` and one
    -- more below 2 ^ 30 elements, succeeds, and leaves such an array of `xs` and the element behind
    -- them, with a tree of depth d + 1 at most.
    pub append_lem :
        (fuel d : ℕ) (s : S) (a : Array E X S) (x : X) (xs : List E) (f : Footprint)
        → IsArray byte_size c storage storable value_id stored_value view lawful address s d a x xs
            f
        → d < fuel
        → length xs + 1 < 2 ^ 30
        → d + 2 ≤ view.room s address
        → (a' : Array E X S) × (d' : ℕ) × (s' : S) × (f' : Footprint) × (append byte_size c storage
              storable value_id stored_value fuel a value s
            ≡ (ok a', s'))
          × IsArray byte_size c storage storable value_id stored_value view lawful address s' d' a'
              x
              (xs ++ e ∷ [])
              f'
          × (d' ≤ suc d)
    unfolding append
    append_lem fuel d s a x xs f h fuelled few room =
        let many : length xs ≡ count a =
          sym (count-IsUnder byte_size c view address s d a.root xs f h.under) in
        let (a', d', s', f', done, good, stored, own, grows, deep) =
          insert_value_lem byte_size c storage storable value_id stored_value view lawful address
            set value e some_size small made fuel d s a x xs f (length xs) h fuelled (omega arith)
            few room in
        (
          a',
          d',
          s',
          f',
          ap (λ n. insert_value byte_size c storage storable value_id stored_value fuel a n value s)
                (sym many)
              ∙ done,
          subst
              (λ ys.
                IsArray byte_size c storage storable value_id stored_value view lawful address s' d'
                  a' x ys f')
              (insert_at_end xs e) good,
          deep,
        )
