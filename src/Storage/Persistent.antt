-- ===== src/Storage/Persistent.antt =====
-- PersistentSlabStorage of storage.go: uncommitted changes (`deltas`) over a read cache over a base
-- storage of encoded slabs.
use atree.Prelude.{
  ℕ, Bool, true, false, Option, none, some, List, [], ◌∷◌, ltb, length, if◌then◌else◌,
}
use atree.Bytes.{Bytes8, Bytes8_eq}
use atree.Ids.{SlabId, SlabId_eq, slab_id_undefined}
use atree.Errors.{ok, err, new_slab_id_error, wrap_result}
use atree.SlabId.{has_temp_address, address_as_uint64, index_as_uint64}
use atree.Action.{Action}
use atree.GoMap
use atree.GoMap.{GoMap}

-- A nil slab in `cache` or `deltas` marks a removed slab.
pub record PersistentSlabStorage (Slab B : Type 0) : Type 0 where
  pub base_storage : B
  pub cache : GoMap (Option Slab)
  pub deltas : GoMap (Option Slab)
  pub temp_slab_index : ℕ

-- `m[id]` alone: nil where the key is missing.
abbrev pub entry {ℓ} : {A : Type ℓ} → Option (Option A) → Option A
entry none = none
entry (some a) = a

-- The order of `sort.Slice` in sortedOwnedDeltaKeys.
unfoldable pub less : SlabId → SlabId → Bool
less a b =
    if Bytes8_eq a.address b.address
    then ltb (index_as_uint64 a) (index_as_uint64 b)
    else ltb (address_as_uint64 a) (address_as_uint64 b)

unfoldable pub insert_sorted : SlabId → List SlabId → List SlabId
insert_sorted a [] = a ∷ []
insert_sorted a (b ∷ l) = if less b a then b ∷ insert_sorted a l else a ∷ b ∷ l

unfoldable pub sort : List SlabId → List SlabId
sort [] = []
sort (a ∷ l) = insert_sorted a (sort l)

-- The keys that an account owns: the `for` of sortedOwnedDeltaKeys.
unfoldable pub owned : List SlabId → List SlabId
owned [] = []
owned (k ∷ l) = let rest = owned l in if has_temp_address k then rest else k ∷ rest

has_key_with_address : Bytes8 → List SlabId → Bool
has_key_with_address address [] = false
has_key_with_address address (k ∷ l) =
    if Bytes8_eq k.address address then true else has_key_with_address address l

module _ {Slab B : Type 0} where
  unfoldable pub sorted_owned_delta_keys : PersistentSlabStorage Slab B → List SlabId
  sorted_owned_delta_keys s = sort (owned (GoMap.keys s.deltas))

  unfoldable pub store : SlabId → Slab → Action (PersistentSlabStorage Slab B) (Unit {0})
  store id slab s =
      if SlabId_eq id slab_id_undefined
      then (err new_slab_id_error, s)
      else (ok tt, record s { deltas = GoMap.insert id (some slab) s.deltas })

  unfoldable pub remove : SlabId → Action (PersistentSlabStorage Slab B) (Unit {0})
  remove id s =
      if SlabId_eq id slab_id_undefined
      then (err new_slab_id_error, s)
      else (ok tt, record s { deltas = GoMap.insert id none s.deltas })

  unfoldable pub retrieve_if_loaded : SlabId → PersistentSlabStorage Slab B → Option Slab
  retrieve_if_loaded id s = elim (GoMap.lookup id s.deltas) [
    | some slab ↦ slab
    | none ↦ entry (GoMap.lookup id s.cache)
  ]

  unfoldable pub exist_if_loaded : SlabId → PersistentSlabStorage Slab B → Bool
  exist_if_loaded id s = elim (GoMap.lookup id s.deltas) [
    | some slab ↦ elim slab [ some _ ↦ true | none ↦ false ]
    | none ↦ elim (entry (GoMap.lookup id s.cache)) [ some _ ↦ true | none ↦ false ]
  ]

  unfoldable pub drop_deltas : PersistentSlabStorage Slab B → PersistentSlabStorage Slab B
  drop_deltas s = record s { deltas = [] }

  unfoldable pub drop_cache : PersistentSlabStorage Slab B → PersistentSlabStorage Slab B
  drop_cache s = record s { cache = [] }

  -- `Deltas` and `DeltasWithoutTempAddresses`
  unfoldable pub deltas_count : PersistentSlabStorage Slab B → ℕ
  deltas_count s = length (GoMap.keys s.deltas)

  unfoldable pub deltas_without_temp_addresses : PersistentSlabStorage Slab B → ℕ
  deltas_without_temp_addresses s = length (owned (GoMap.keys s.deltas))

  unfoldable pub has_unsaved_changes : Bytes8 → PersistentSlabStorage Slab B → Bool
  unfolding has_key_with_address
  has_unsaved_changes address s = has_key_with_address address (GoMap.keys s.deltas)

-- A call of the base storage from a method: its new state is kept, and its error is wrapped.
unfoldable pub on_base : {A Slab B : Type 0} → Action B A → Action (PersistentSlabStorage Slab B) A
on_base m s = (wrap_result (m s.base_storage).0, record s { base_storage = (m s.base_storage).1 })
