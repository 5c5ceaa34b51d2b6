-- ===== src/Storage/View.antt =====
-- What a client of PersistentSlabStorage can read: reading changes nothing that it shows, and a
-- write shows at its own ID.
use atree.Prelude.{
  ℕ, ◌≡◌, ◌≢◌, refl, true, Option, none, some, List, arith, ◌∙◌, inl, inr, Option-cases,
  if◌then◌else◌,
}
use atree.Bytes.{Bytes8}
use atree.Ids.{SlabId, SlabId_eq_iff, SlabId_eq, slab_id_undefined}
use atree.Errors.{Result, ok, err, panic, ◌>>=◌, wrap_result}
use atree.Action.{lift, continue}
use atree.Action
use atree.GoMap
use atree.GoMap.{lookup-insert}
use atree.Storage.Base.{BaseStorage, Codec, IsLawfulBase}
use atree.Storage.Persistent.{PersistentSlabStorage, store, remove, retrieve_if_loaded}
use atree.Storage.Retrieve.{
  retrieve, retrieve_ignoring_deltas, generate_slab_id, remember, decode_found,
}

module _ {Slab : Type 0} (codec : Codec Slab) where
  -- What data read from the base storage stands for.
  unfoldable pub decoded : SlabId → Result (Option (List ℕ)) → Result (Option Slab)
  decoded id r = wrap_result r >>= λ o. elim o [
    | none ↦ ok none
    | some bytes ↦ codec.decode_slab id bytes >>= λ slab. ok (some slab)
  ]

module _ {Slab B : Type 0} (codec : Codec Slab) (base : BaseStorage B)
    (lawful : IsLawfulBase base) where
  -- The slab that the storage holds under an ID: the newest of the three layers that knows of it.
  unfoldable pub view : PersistentSlabStorage Slab B → SlabId → Result (Option Slab)
  unfolding decoded
  view s id = elim (GoMap.lookup id s.deltas) [
    | some slab ↦ ok slab
    | none ↦ elim (GoMap.lookup id s.cache) [
      | some slab ↦ ok slab
      | none ↦ decoded codec id (lawful.read s.base_storage id)
    ]
  ]

  module _ (s : PersistentSlabStorage Slab B) (id : SlabId) where
    pub view-pending :
        (change : Option Slab) → GoMap.lookup id s.deltas ≡ some change → view s id ≡ ok change
    unfolding view
    view-pending change h = ground (arith, h)

    pub view-cached :
        (slab : Option Slab)
        → GoMap.lookup id s.deltas ≡ none
        → GoMap.lookup id s.cache ≡ some slab
        → view s id ≡ ok slab
    unfolding view
    view-cached slab h k = ground (arith, h, k)

    pub view-base :
        GoMap.lookup id s.deltas ≡ none
        → GoMap.lookup id s.cache ≡ none
        → view s id ≡ decoded codec id (lawful.read s.base_storage id)
    unfolding view
    view-base h k = ground (arith, h, k)

  pub retrieve-eq-view :
      (id : SlabId) (s : PersistentSlabStorage Slab B) → (retrieve codec base id s).0 ≡ view s id
  unfolding retrieve view wrap_result
  retrieve-eq-view id s = ground (arith, lawful.retrieve-read id s.base_storage)

  -- Remembering what the storage shows under an ID.
  view-remember :
      (id j : SlabId) (slab : Slab) (s : PersistentSlabStorage Slab B)
      → GoMap.lookup id s.deltas ≡ none
      → view s id ≡ ok (some slab)
      → view (remember codec base id true slab s).1 j ≡ view s j
  unfolding remember view
  view-remember id j slab s h e =
      ground (arith, SlabId_eq_iff id j, lookup-insert id j (some slab) s.cache)

  view-remember_all :
      (id j : SlabId) (r : Result Slab) (s : PersistentSlabStorage Slab B)
      → GoMap.lookup id s.deltas ≡ none
      → ((slab : Slab) → r ≡ ok slab → view s id ≡ ok (some slab))
      → view (Action.◌>>=◌ (lift r) (remember codec base id true) s).1 j ≡ view s j
  view-remember_all id j (ok slab) s h e = view-remember id j slab s h (e slab refl)
  view-remember_all id j (err x) s h e = refl
  view-remember_all id j panic s h e = refl

  view-decode_found :
      (id j : SlabId) (r : Result (Option (List ℕ))) (s : PersistentSlabStorage Slab B)
      → GoMap.lookup id s.deltas ≡ none
      → view s id ≡ decoded codec id r
      → view (continue (wrap_result r) (decode_found codec base id true) s).1 j ≡ view s j
  unfolding decode_found decoded wrap_result
  view-decode_found id j (ok none) s h e = refl
  view-decode_found id j (ok (some bytes)) s h e =
      view-remember_all id j (codec.decode_slab id bytes) s h (λ slab d. e ∙ rw d)
  view-decode_found id j (err x) s h e = refl
  view-decode_found id j panic s h e = refl

  -- The view of the state that a call of the base storage for `id` leaves.
  view-on_base-retrieve :
      (id j : SlabId) (s : PersistentSlabStorage Slab B)
      → view (record s { base_storage = (base.retrieve id s.base_storage).1 }) j ≡ view s j
  unfolding view
  view-on_base-retrieve id j s = ground (arith, lawful.read-retrieve id j s.base_storage)

  view-miss :
      (id : SlabId) (s : PersistentSlabStorage Slab B)
      → GoMap.lookup id s.deltas ≡ none
      → GoMap.lookup id s.cache ≡ none
      → view s id ≡ decoded codec id (base.retrieve id s.base_storage).0
  unfolding view
  view-miss id s h k = ground (arith, lawful.retrieve-read id s.base_storage)

  view-retrieve_ignoring_deltas :
      (id j : SlabId) (s : PersistentSlabStorage Slab B)
      → GoMap.lookup id s.deltas ≡ none
      → view (retrieve_ignoring_deltas codec base id true s).1 j ≡ view s j
  unfolding retrieve_ignoring_deltas
  view-retrieve_ignoring_deltas id j s h = elim (Option-cases (GoMap.lookup id s.cache)) [
    | inl e ↦
        rw (e, retrieve_ignoring_deltas)
          (view-decode_found id j (base.retrieve id s.base_storage).0
              (record s { base_storage = (base.retrieve id s.base_storage).1 }) h
              (view-on_base-retrieve id id s ∙ view-miss id s h e)
            ∙ view-on_base-retrieve id j s)
    | inr (slab, e) ↦ rw (e, retrieve_ignoring_deltas)
  ]

  pub view-retrieve :
      (id j : SlabId) (s : PersistentSlabStorage Slab B)
      → view (retrieve codec base id s).1 j ≡ view s j
  view-retrieve id j s = elim (Option-cases (GoMap.lookup id s.deltas)) [
    | inl e ↦ unfold retrieve in rw (e, retrieve) (view-retrieve_ignoring_deltas id j s e)
    | inr (slab, e) ↦ unfold retrieve in rw (e, retrieve)
  ]

  -- Over a lawful base storage, Store under an ID that is not the undefined one succeeds, and then
  -- the storage shows the slab under that ID and what it showed before under every other.
  pub view-store :
      (id j : SlabId) (slab : Slab) (s : PersistentSlabStorage Slab B)
      → id ≢ slab_id_undefined
      → ((store id slab s).0 ≡ ok tt)
        × (view (store id slab s).1 j ≡ (if SlabId_eq id j then ok (some slab) else view s j))
  unfolding store view
  view-store id j slab s h =
      ground (arith, SlabId_eq_iff id slab_id_undefined, lookup-insert id j (some slab) s.deltas)

  -- Over a lawful base storage, Remove of an ID that is not the undefined one succeeds, and then
  -- the storage shows no slab under that ID and what it showed before under every other.
  pub view-remove :
      (id j : SlabId) (s : PersistentSlabStorage Slab B)
      → id ≢ slab_id_undefined
      → ((remove id s).0 ≡ ok tt)
        × (view (remove id s).1 j ≡ (if SlabId_eq id j then ok none else view s j))
  unfolding remove view
  view-remove id j s h =
      ground (arith, SlabId_eq_iff id slab_id_undefined, lookup-insert id j none s.deltas)

  -- Over a lawful base storage, GenerateSlabID changes nothing that the storage shows.
  pub view-generate :
      (address : Bytes8) (id : SlabId) (s : PersistentSlabStorage Slab B)
      → view (generate_slab_id codec base address s).1 id ≡ view s id
  unfolding generate_slab_id view
  view-generate address id s = ground (arith, lawful.generate-read address id s.base_storage)

  -- Over a lawful base storage, a slab that RetrieveIfLoaded returns is the one that the storage
  -- shows.
  pub retrieve_if_loaded-view :
      (id : SlabId) (s : PersistentSlabStorage Slab B) (slab : Slab)
      → retrieve_if_loaded id s ≡ some slab
      → view s id ≡ ok (some slab)
  unfolding retrieve_if_loaded view
  retrieve_if_loaded-view id s slab h = ground arith
