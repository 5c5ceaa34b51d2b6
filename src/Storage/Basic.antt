-- ===== src/Storage/Basic.antt =====
-- BasicSlabStorage of storage.go: the slabs in one map, and the last index given out at each
-- address.
pub mod Laws
use atree.Prelude.{
  ℕ, Bool, Option, none, some, List, [], ◌∷◌, length, if◌then◌else◌, get_elem?, suc,
}
use atree.Bytes.{Bytes8, Bytes8_eq, undefined}
use atree.Ids.{SlabId, slab_id_undefined}
use atree.Errors.{Result, ok, err, panic}
use atree.Errors
use atree.SlabId.{next, new_slab_id}
use atree.Action.{Action}
use atree.GoMap
use atree.GoMap.{GoMap}
use atree.Storage.Interface.{SlabStorage}

-- `map[Address]SlabIndex`
abbrev pub IndexMap : Type 0
IndexMap = List (Bytes8 × Bytes8)

-- `s.slabIndex[address]`: the zero value where the key is missing.
unfoldable pub last_index : Bytes8 → IndexMap → Bytes8
last_index address [] = undefined
last_index address ((a, index) ∷ m) = if Bytes8_eq address a then index else last_index address m

-- `s.slabIndex[address] = index`
unfoldable pub put_last_index : Bytes8 → Bytes8 → IndexMap → IndexMap
put_last_index address index [] = (address, index) ∷ []
put_last_index address index ((a, i) ∷ m) =
    if Bytes8_eq address a then (a, index) ∷ m else (a, i) ∷ put_last_index address index m

pub record BasicSlabStorage (Slab : Type 0) : Type 0 where
  pub slabs : GoMap Slab
  pub slab_index : IndexMap

-- The loop of Encode.
unfoldable pub encode_all :
    {Slab : Type 0} → (Slab → Result (List ℕ)) → GoMap Slab → Result (GoMap (List ℕ))
encode_all encode_slab [] = ok []
encode_all encode_slab ((id, slab) ∷ m) =
    Errors.◌>>=◌ (encode_slab slab)
      (λ b. Errors.◌>>=◌ (encode_all encode_slab m) (λ rest. ok ((id, b) ∷ rest)))

module _ {Slab : Type 0} where
  abbrev pub new_basic_slab_storage : BasicSlabStorage Slab
  new_basic_slab_storage = record { slabs = []; slab_index = [] }

  unfoldable pub generate_slab_id : Bytes8 → Action (BasicSlabStorage Slab) SlabId
  unfolding last_index put_last_index
  generate_slab_id address s =
      let next_index = next (last_index address s.slab_index) in
      (
        ok (new_slab_id address next_index),
        record s { slab_index = put_last_index address next_index s.slab_index },
      )

  unfoldable pub retrieve_if_loaded : SlabId → BasicSlabStorage Slab → Option Slab
  retrieve_if_loaded id s = GoMap.lookup id s.slabs

  unfoldable pub retrieve : SlabId → Action (BasicSlabStorage Slab) (Option Slab)
  retrieve id s = (ok (GoMap.lookup id s.slabs), s)

  unfoldable pub store : SlabId → Slab → Action (BasicSlabStorage Slab) (Unit {0})
  store id slab s = (ok tt, record s { slabs = GoMap.insert id slab s.slabs })

  unfoldable pub remove : SlabId → Action (BasicSlabStorage Slab) (Unit {0})
  remove id s = (ok tt, record s { slabs = GoMap.delete id s.slabs })

  unfoldable pub count : BasicSlabStorage Slab → ℕ
  count s = length (GoMap.keys s.slabs)

  unfoldable pub slab_ids : BasicSlabStorage Slab → List SlabId
  slab_ids s = GoMap.keys s.slabs

  -- `encode_slab` is EncodeSlab under the storage's CBOR mode.
  unfoldable pub encode : (Slab → Result (List ℕ)) → BasicSlabStorage Slab → Result (GoMap (List ℕ))
  unfolding encode_all
  encode encode_slab s = encode_all encode_slab s.slabs

  -- The function that SlabIterator returns: call number `i` of it, over the entries that SlabIterator
  -- collects.
  unfoldable pub slab_iterator : BasicSlabStorage Slab → ℕ → SlabId × Option Slab
  slab_iterator s i = elim (get_elem? s.slabs i) [
    | none ↦ (slab_id_undefined, none)
    | some (id, slab) ↦ (id, some slab)
  ]

  -- `*BasicSlabStorage` as a `SlabStorage`.
  unfoldable pub slab_storage : SlabStorage (BasicSlabStorage Slab) Slab
  slab_storage = record {
    store = store;
    retrieve = retrieve;
    remove = remove;
    generate_slab_id = generate_slab_id;
  }
