-- ===== src/Storage/Reads.antt =====
-- What Retrieve returns after Store, Remove and Retrieve of PersistentSlabStorage (storage.go), and
-- what it leaves in the read cache.
use atree.Prelude.{
  ℕ, ◌≡◌, ◌≢◌, ◌∙◌, sym, true, Option, none, some, List, arith, inl, inr, Option-cases,
  if◌then◌else◌,
}
use atree.Ids.{SlabId, SlabId_eq_iff, SlabId_eq, slab_id_undefined}
use atree.Errors.{Result, ok, err, panic, wrap_result}
use atree.Action.{lift, continue}
use atree.Action
use atree.GoMap
use atree.GoMap.{lookup-insert}
use atree.Storage.Base.{BaseStorage, Codec, IsLawfulBase}
use atree.Storage.Persistent.{PersistentSlabStorage, store, remove, retrieve_if_loaded, on_base}
use atree.Storage.Retrieve.{retrieve, retrieve_ignoring_deltas, remember, decode_found}
use atree.Storage.View.{retrieve-eq-view, view-retrieve, view-store, view-remove}

module _ {Slab B : Type 0} (codec : Codec Slab) (base : BaseStorage B) where
  -- What a result leaves for RetrieveIfLoaded: a slab where there is one.
  abbrev pub loaded : Result (Option Slab) → Option Slab
  loaded (ok o) = o
  loaded (err x) = none
  loaded panic = none

  retrieve_if_loaded-remember :
      (id : SlabId) (r : Result Slab) (s : PersistentSlabStorage Slab B)
      → GoMap.lookup id s.deltas ≡ none
      → GoMap.lookup id s.cache ≡ none
      → retrieve_if_loaded id (Action.◌>>=◌ (lift r) (remember codec base id true) s).1
        ≡ loaded (Action.◌>>=◌ (lift r) (remember codec base id true) s).0
  unfolding remember retrieve_if_loaded
  retrieve_if_loaded-remember id (ok slab) s h k =
      ground (arith, h, lookup-insert id id (some slab) s.cache, SlabId_eq_iff id id)
  retrieve_if_loaded-remember id (err x) s h k = ground (arith, h, k)
  retrieve_if_loaded-remember id panic s h k = ground (arith, h, k)

  retrieve_if_loaded-decode_found :
      (id : SlabId) (r : Result (Option (List ℕ))) (s : PersistentSlabStorage Slab B)
      → GoMap.lookup id s.deltas ≡ none
      → GoMap.lookup id s.cache ≡ none
      → retrieve_if_loaded id (continue (wrap_result r) (decode_found codec base id true) s).1
        ≡ loaded (continue (wrap_result r) (decode_found codec base id true) s).0
  unfolding decode_found wrap_result retrieve_if_loaded
  retrieve_if_loaded-decode_found id (ok none) s h k = ground (arith, h, k)
  retrieve_if_loaded-decode_found id (ok (some bytes)) s h k =
      retrieve_if_loaded-remember id (codec.decode_slab id bytes) s h k
  retrieve_if_loaded-decode_found id (err x) s h k = ground (arith, h, k)
  retrieve_if_loaded-decode_found id panic s h k = ground (arith, h, k)

  retrieve_if_loaded-retrieve :
      (id : SlabId) (s : PersistentSlabStorage Slab B)
      → retrieve_if_loaded id (retrieve codec base id s).1 ≡ loaded (retrieve codec base id s).0
  unfolding retrieve retrieve_ignoring_deltas on_base retrieve_if_loaded
  retrieve_if_loaded-retrieve id s = elim (Option-cases (GoMap.lookup id s.deltas)) [
    | inr (slab, e) ↦ ground (arith, e)
    | inl e ↦ elim (Option-cases (GoMap.lookup id s.cache)) [
      | inr (slab, f) ↦ ground (arith, e, f)
      | inl f ↦
          rw (e, retrieve, f, retrieve_ignoring_deltas)
            (retrieve_if_loaded-decode_found id (base.retrieve id s.base_storage).0
              (record s { base_storage = (base.retrieve id s.base_storage).1 }) e f)
    ]
  ]

  -- Over a lawful base storage, reads see the last write. For an ID that is not the undefined one:
  -- after a Store, Retrieve of that ID returns the slab, and Retrieve of another ID what it returned
  -- before; after a Remove, Retrieve of that ID finds nothing, and Retrieve of another ID returns
  -- what it returned before; after a Retrieve, successful or not, Retrieve of every ID returns what
  -- it returned before, and RetrieveIfLoaded of that ID returns the slab that Retrieve returned,
  -- without the base storage, or none where Retrieve returned none or failed.
  pub retrieve-store-remove-retrieve :
      (lawful : IsLawfulBase base) (id j : SlabId) (slab : Slab) (s : PersistentSlabStorage Slab B)
      → id ≢ slab_id_undefined
      → ((retrieve codec base j (store id slab s).1).0
          ≡ (if SlabId_eq id j then ok (some slab) else (retrieve codec base j s).0))
        × ((retrieve codec base j (remove id s).1).0
            ≡ (if SlabId_eq id j then ok none else (retrieve codec base j s).0))
        × ((retrieve codec base j (retrieve codec base id s).1).0 ≡ (retrieve codec base j s).0)
        × (retrieve_if_loaded id (retrieve codec base id s).1 ≡ loaded (retrieve codec base id s).0)
  retrieve-store-remove-retrieve lawful id j slab s h =
      let read = retrieve-eq-view codec base lawful j in
      (
        rw (read s) (read (store id slab s).1 ∙ (view-store codec base lawful id j slab s h).1),
        rw (read s) (read (remove id s).1 ∙ (view-remove codec base lawful id j s h).1),
        read (retrieve codec base id s).1 ∙ view-retrieve codec base lawful id j s ∙ sym (read s),
        retrieve_if_loaded-retrieve id s,
      )
