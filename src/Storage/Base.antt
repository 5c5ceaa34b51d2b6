-- ===== src/Storage/Base.antt =====
-- The interfaces that PersistentSlabStorage is built on (storage.go): the base storage of encoded
-- slabs, and the encoder and decoder of slabs.
use atree.Prelude.{ℕ, ◌≡◌, ◌≢◌, Bool, Option, none, some, List, []}
use atree.Bytes.{Bytes8}
use atree.Ids.{SlabId, SlabId_eq}
use atree.Errors.{Result, ok}
use atree.Action.{Action}

-- `BaseStorage`: a method may fail, and may change the state even then. `Retrieve` returns no data
-- where its second result is `false`.
pub record BaseStorage (B : Type 0) : Type 0 where
  pub store : SlabId → List ℕ → Action B (Unit {0})
  pub retrieve : SlabId → Action B (Option (List ℕ))
  pub remove : SlabId → Action B (Unit {0})
  pub generate_slab_id : Bytes8 → Action B SlabId

-- What a base storage promises. `read` says what `Retrieve` returns in a state: a call concerns its
-- own ID alone, and a successful write of data that is not empty is what the next read returns.
-- LedgerBaseStorage keeps it over a ledger (Ledger), and finds nothing where the data is empty.
pub record IsLawfulBase {B : Type 0} (base : BaseStorage B) : Type 0 where
  pub read : B → SlabId → Result (Option (List ℕ))
  pub retrieve-read : (id : SlabId) (b : B) → (base.retrieve id b).0 ≡ read b id
  pub read-retrieve : (id j : SlabId) (b : B) → read (base.retrieve id b).1 j ≡ read b j
  pub store-other :
      (id j : SlabId) (bytes : List ℕ) (b : B)
      → SlabId_eq id j ≡ Bool.false
      → read (base.store id bytes b).1 j ≡ read b j
  pub store-self :
      (id : SlabId) (bytes : List ℕ) (b : B)
      → bytes ≢ []
      → (base.store id bytes b).0 ≡ ok tt
      → read (base.store id bytes b).1 id ≡ ok (some bytes)
  pub remove-other :
      (id j : SlabId) (b : B) → SlabId_eq id j ≡ Bool.false → read (base.remove id b).1 j ≡ read b j
  pub remove-self :
      (id : SlabId) (b : B) → (base.remove id b).0 ≡ ok tt → read (base.remove id b).1 id ≡ ok none
  pub generate-read :
      (address : Bytes8) (id : SlabId) (b : B)
      → read (base.generate_slab_id address b).1 id ≡ read b id

-- `EncodeSlab` and `DecodeSlab`, under the storage's CBOR modes and decoders. Empty data stands for
-- a nil slice.
pub record Codec (Slab : Type 0) : Type 0 where
  pub encode_slab : Slab → Result (List ℕ)
  pub decode_slab : SlabId → List ℕ → Result Slab
  pub byte_size : Slab → ℕ

-- An encoded slab has data, as it begins with the two bytes of its head.
abbrev pub HasData : {Slab : Type 0} → Codec Slab → Type 0
HasData {Slab} codec =
    (slab : Slab) (bytes : List ℕ) → codec.encode_slab slab ≡ ok bytes → bytes ≢ []
