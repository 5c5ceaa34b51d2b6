-- ===== src/Storage/Basic/Laws.antt =====
-- BasicSlabStorage (storage.go) keeps the promises of the interface SlabStorage.
use atree.Prelude.{◌+◌, ◌-◌, ◌<◌, ◌≡◌, refl, ◌&&◌, [], ◌∷◌, ltb, leb, arith, if◌then◌else◌, u64_mod}
use atree.Bytes.{Bytes8, Bytes8_eq, be_uint64, Bytes8_eq_iff}
use atree.Ids.{SlabId}
use atree.Errors.{ok}
use atree.SlabId.{next, new_slab_id, index_as_uint64}
use atree.SlabId.Laws.{be_uint64-next}
use atree.GoMap
use atree.GoMap.{GoMap, lookup-insert, lookup-delete, keys}
use atree.Storage.Interface.{StorageView, Issues, IsLawfulStorage}
use atree.Storage.Basic.{
  BasicSlabStorage, IndexMap, last_index, put_last_index, generate_slab_id, retrieve, store, remove,
  slab_storage,
}

last_index-put_last_index :
    (a address index : Bytes8) (m : IndexMap)
    → last_index a (put_last_index address index m)
      ≡ (if Bytes8_eq a address then index else last_index a m)
unfolding last_index put_last_index
last_index-put_last_index a address index [] = refl
last_index-put_last_index a address index ((b, i) ∷ m) = ground (
  arith,
  last_index-put_last_index a address index m,
  Bytes8_eq_iff a address,
  Bytes8_eq_iff address b,
  Bytes8_eq_iff a b,
)

module _ {Slab : Type 0} where
  -- The indexes given out at an address are those up to the last one.
  abbrev pub basic_view : StorageView (BasicSlabStorage Slab) Slab
  basic_view = record {
    held = λ s id. ok (GoMap.lookup id s.slabs);
    used = λ s id.
        ltb 0 (index_as_uint64 id)
        && leb (index_as_uint64 id) (be_uint64 (last_index id.address s.slab_index));
    room = λ s address. u64_mod - 1 - be_uint64 (last_index address s.slab_index);
  }

  generate_slab_id-Issues :
      (address : Bytes8) (s : BasicSlabStorage Slab)
      → 0 < basic_view.room s address
      → (id : SlabId) × (s' : BasicSlabStorage Slab) × (generate_slab_id address s ≡ (ok id, s'))
        × Issues basic_view address id s s'
  unfolding generate_slab_id new_slab_id index_as_uint64
  generate_slab_id-Issues address s left =
      let last = last_index address s.slab_index in
      let up : be_uint64 (next last) ≡ be_uint64 last + 1 = omega (arith, be_uint64-next last) in
      let new = (λ (a : Bytes8). last_index-put_last_index a address (next last) s.slab_index) in
      let same = Bytes8_eq_iff address address in
      (
        _,
        _,
        refl,
        record {
          held = λ j. refl;
          at_address = refl;
          fresh = ground (arith, up);
          taken = ground (arith, up, new address, same);
          kept = λ j h. ground (arith, up, new j.address, Bytes8_eq_iff j.address address, h);
          room = ground (arith, up, new address, same);
          room_other = λ a h. ground (arith, new a, h);
        },
      )

  -- BasicSlabStorage behaves as a map of slabs: Retrieve returns what was stored last under an ID,
  -- and changes nothing; Store and Remove, under an ID whose index is between 1 and the last index
  -- of its address, succeed and change what is held under that ID alone; and GenerateSlabID, at an
  -- address whose last index is below 2 ^ 64 - 1, returns an ID at the address that had not been
  -- given out, and changes nothing that is held.
  pub slab_storage-IsLawfulStorage : IsLawfulStorage (slab_storage {Slab = Slab}) basic_view
  unfolding slab_storage retrieve store remove
  slab_storage-IsLawfulStorage = record {
    retrieve-held = λ id s. (s, refl, λ j. refl, record { used = λ j. refl; room = λ a. refl });
    store-held = λ id slab s h. (
      _,
      refl,
      λ j. ground (arith, lookup-insert id j slab s.slabs),
      record { used = λ j. refl; room = λ a. refl },
    );
    remove-held = λ id s h. (
      _,
      refl,
      λ j. ground (arith, lookup-delete id j s.slabs),
      record { used = λ j. refl; room = λ a. refl },
    );
    generate-Issues = generate_slab_id-Issues;
  }
