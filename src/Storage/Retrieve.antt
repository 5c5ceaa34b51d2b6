-- ===== src/Storage/Retrieve.antt =====
-- RetrieveIgnoringDeltas and Retrieve of storage.go, and generation of IDs.
use atree.Prelude.{ℕ, Bool, true, Option, none, some, List, if◌then◌else◌, add64}
use atree.Bytes.{Bytes8, Bytes8_eq, undefined, put_uint64}
use atree.Ids.{SlabId}
use atree.Errors.{ok}
use atree.SlabId.{new_slab_id}
use atree.Action.{Action, lift, ◌>>=◌}
use atree.GoMap
use atree.Storage.Base.{BaseStorage, Codec}
use atree.Storage.Interface.{SlabStorage}
use atree.Storage.Persistent.{PersistentSlabStorage, on_base, store, remove}

module _ {Slab B : Type 0} (codec : Codec Slab) (base : BaseStorage B) where
  -- The end of RetrieveIgnoringDeltas: a decoded slab goes into the cache where that is asked.
  unfoldable pub remember :
      SlabId → Bool → Slab → Action (PersistentSlabStorage Slab B) (Option Slab)
  remember id caching slab s = (
    ok (some slab),
    record s { cache = if caching then GoMap.insert id (some slab) s.cache else s.cache },
  )

  unfoldable pub decode_found :
      SlabId → Bool → Option (List ℕ) → Action (PersistentSlabStorage Slab B) (Option Slab)
  decode_found id caching none s = (ok none, s)
  decode_found id caching (some bytes) s =
      (lift (codec.decode_slab id bytes) >>= remember id caching) s

  -- No slab is the result `nil, false`.
  unfoldable pub retrieve_ignoring_deltas :
      SlabId → Bool → Action (PersistentSlabStorage Slab B) (Option Slab)
  unfolding decode_found remember on_base
  retrieve_ignoring_deltas id caching s = elim (GoMap.lookup id s.cache) [
    | some slab ↦ (ok slab, s)
    | none ↦ (on_base (base.retrieve id) >>= decode_found id caching) s
  ]

  unfoldable pub retrieve : SlabId → Action (PersistentSlabStorage Slab B) (Option Slab)
  unfolding retrieve_ignoring_deltas
  retrieve id s = elim (GoMap.lookup id s.deltas) [
    | some slab ↦ (ok slab, s)
    | none ↦ retrieve_ignoring_deltas id true s
  ]

  unfoldable pub generate_slab_id : Bytes8 → Action (PersistentSlabStorage Slab B) SlabId
  unfolding on_base
  generate_slab_id address s =
      if Bytes8_eq address undefined
      then (let index = add64 s.temp_slab_index 1 in
          (ok (new_slab_id address (put_uint64 index)), record s { temp_slab_index = index }))
      else on_base (base.generate_slab_id address) s

-- `*PersistentSlabStorage` as a `SlabStorage`.
unfoldable pub slab_storage :
    {Slab B : Type 0} → Codec Slab → BaseStorage B → SlabStorage (PersistentSlabStorage Slab B) Slab
slab_storage codec base = record {
  store = store;
  retrieve = retrieve codec base;
  remove = remove;
  generate_slab_id = generate_slab_id codec base;
}
