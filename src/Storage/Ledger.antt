-- ===== src/Storage/Ledger.antt =====
-- LedgerBaseStorage of storage.go: the base storage that keeps slabs as values of a ledger.
use atree.Prelude.{
  ℕ, ◌+◌, ◌≡◌, ◌≢◌, ◌∙◌, refl, ap, false, Option, none, some, List, [], ◌∷◌, length,
}
use atree.Bytes.{Bytes8, to_list}
use atree.Ids.{SlabId, SlabId_eq, SlabId_eq_iff}
use atree.Errors.{Error, Result, ok, err, panic, wrap_error_as_external_if_needed, wrap_result}
use atree.Action.{Action}
use atree.Storage.Base.{BaseStorage, IsLawfulBase}

-- The prefix is "$".
unfoldable pub slab_index_to_ledger_key : Bytes8 → List ℕ
slab_index_to_ledger_key index = 36 ∷ to_list index

-- `Ledger`. GetValue may return a value beside an error. Empty values stand for nil.
pub record Ledger (L : Type 0) : Type 0 where
  pub get_value : Bytes8 → List ℕ → L → (List ℕ × Option Error) × L
  pub set_value : Bytes8 → List ℕ → List ℕ → Action L (Unit {0})
  pub allocate_slab_index : Bytes8 → Action L Bytes8

-- What a ledger promises: `value` is what GetValue returns in a state, a read leaves the values as
-- they are, a successful write sets one of them, a write leaves the others as they are, and the
-- allocation of an index leaves the values of slabs as they are.
pub record IsLawfulLedger {L : Type 0} (ledger : Ledger L) : Type 0 where
  pub value : L → Bytes8 → List ℕ → List ℕ × Option Error
  pub get-value :
      (owner : Bytes8) (key : List ℕ) (l : L) → (ledger.get_value owner key l).0 ≡ value l owner key
  pub value-set :
      (owner : Bytes8) (key bytes : List ℕ) (l : L)
      → (ledger.set_value owner key bytes l).0 ≡ ok tt
      → value (ledger.set_value owner key bytes l).1 owner key ≡ (bytes, none)
  pub value-set_other :
      (owner owner' : Bytes8) (key key' bytes : List ℕ) (l : L)
      → (owner ≡ owner' → key ≡ key' → ⊥)
      → value (ledger.set_value owner key bytes l).1 owner' key' ≡ value l owner' key'
  pub value-get :
      (owner owner' : Bytes8) (key key' : List ℕ) (l : L)
      → value (ledger.get_value owner key l).1 owner' key' ≡ value l owner' key'
  pub value-allocate :
      (owner owner' index : Bytes8) (l : L)
      → value (ledger.allocate_slab_index owner l).1 owner' (slab_index_to_ledger_key index)
        ≡ value l owner' (slab_index_to_ledger_key index)

-- The ledger's own state and the counts of bytes, which are small enough for an int.
pub record LedgerBaseStorage (L : Type 0) : Type 0 where
  pub ledger : L
  pub bytes_retrieved : ℕ
  pub bytes_stored : ℕ

unfoldable pub new_ledger_base_storage : {L : Type 0} → L → LedgerBaseStorage L
new_ledger_base_storage l = record { ledger = l; bytes_retrieved = 0; bytes_stored = 0 }

unfoldable pub reset_reporter : {L : Type 0} → LedgerBaseStorage L → LedgerBaseStorage L
reset_reporter s = record s { bytes_retrieved = 0; bytes_stored = 0 }

abbrev retrieved : List ℕ × Option Error → Result (Option (List ℕ))
retrieved (bytes, some e) = err (wrap_error_as_external_if_needed e)
retrieved ([], none) = ok none
retrieved (b ∷ bytes, none) = ok (some (b ∷ bytes))

module _ {L : Type 0} (ledger : Ledger L) where
  unfoldable pub retrieve : SlabId → Action (LedgerBaseStorage L) (Option (List ℕ))
  unfolding slab_index_to_ledger_key
  retrieve id s =
      let (v, l) = ledger.get_value id.address (slab_index_to_ledger_key id.index) s.ledger in
      (retrieved v, record s { ledger = l; bytes_retrieved = s.bytes_retrieved + length v.0 })

  unfoldable pub write : SlabId → List ℕ → Action (LedgerBaseStorage L) (Unit {0})
  unfolding slab_index_to_ledger_key
  write id bytes s =
      let (r, l) = ledger.set_value id.address (slab_index_to_ledger_key id.index) bytes s.ledger in
      (wrap_result r, record s { ledger = l })

  unfoldable pub store : SlabId → List ℕ → Action (LedgerBaseStorage L) (Unit {0})
  unfolding write
  store id bytes s = write id bytes (record s { bytes_stored = s.bytes_stored + length bytes })

  unfoldable pub remove : SlabId → Action (LedgerBaseStorage L) (Unit {0})
  unfolding write
  remove id s = write id [] s

  unfoldable pub generate_slab_id : Bytes8 → Action (LedgerBaseStorage L) SlabId
  generate_slab_id address s =
      let (r, l) = ledger.allocate_slab_index address s.ledger in
      (
        elim (wrap_result r) [
          | ok index ↦ ok (record { address = address; index = index })
          | err e ↦ err e
          | panic ↦ panic
        ],
        record s { ledger = l },
      )

  -- A LedgerBaseStorage as the base storage of a PersistentSlabStorage.
  unfoldable pub ledger_base : BaseStorage (LedgerBaseStorage L)
  unfolding retrieve store remove generate_slab_id
  ledger_base = record {
    store = store;
    retrieve = retrieve;
    remove = remove;
    generate_slab_id = generate_slab_id;
  }

module _ {L : Type 0} (ledger : Ledger L) (laws : IsLawfulLedger ledger) where
  retrieve_lem :
      (id : SlabId) (s : LedgerBaseStorage L)
      → (retrieve ledger id s).0
        ≡ retrieved (laws.value s.ledger id.address (slab_index_to_ledger_key id.index))
  unfolding retrieve
  retrieve_lem id s =
      ap retrieved (laws.get-value id.address (slab_index_to_ledger_key id.index) s.ledger)

  other_key :
      (id j : SlabId)
      → SlabId_eq id j ≡ false
      → id.address ≡ j.address
      → slab_index_to_ledger_key id.index ≡ slab_index_to_ledger_key j.index
      → ⊥
  unfolding slab_index_to_ledger_key
  other_key id j n a k =
      let index : id.index ≡ j.index = bytes_inj id.index j.index k in
      let same : id ≡ j = cc in let yes = (SlabId_eq_iff id j).1 same in cc
    where
      bytes_inj : (x y : Bytes8) → (36 ∷ to_list x) ≡ (36 ∷ to_list y) → x ≡ y
      bytes_inj x y h = cc

  done : (r : Result (Unit {0})) → wrap_result r ≡ ok tt → r ≡ ok tt
  unfolding wrap_result
  done (ok tt) h = refl
  done (err e) h = absurd cc
  done panic h = absurd cc

  -- What Retrieve returns in a state.
  abbrev read : LedgerBaseStorage L → SlabId → Result (Option (List ℕ))
  read s id = retrieved (laws.value s.ledger id.address (slab_index_to_ledger_key id.index))

  read-write :
      (id : SlabId) (bytes : List ℕ) (s : LedgerBaseStorage L)
      → (write ledger id bytes s).0 ≡ ok tt
      → read (write ledger id bytes s).1 id ≡ retrieved (bytes, none)
  unfolding write
  read-write id bytes s h =
      ap retrieved
        (laws.value-set id.address (slab_index_to_ledger_key id.index) bytes s.ledger (done _ h))

  read-write_other :
      (id j : SlabId) (bytes : List ℕ) (s : LedgerBaseStorage L)
      → SlabId_eq id j ≡ false
      → read (write ledger id bytes s).1 j ≡ read s j
  unfolding write
  read-write_other id j bytes s n = ap retrieved (
      laws.value-set_other id.address j.address (slab_index_to_ledger_key id.index)
        (slab_index_to_ledger_key j.index) bytes s.ledger (other_key id j n))

  filled : (bytes : List ℕ) → bytes ≢ [] → retrieved (bytes, none) ≡ ok (some bytes)
  filled [] h = absurd (h refl)
  filled (b ∷ bytes) h = refl

  -- LedgerBaseStorage, over any ledger that keeps its promises, is a lawful base storage: Retrieve
  -- changes nothing that it returns; a Store that succeeds, of data that is not empty, makes
  -- Retrieve of its ID return the data, and a Remove that succeeds makes it find nothing; and
  -- neither of them, succeeding or not, changes what Retrieve returns for another ID, nor
  -- GenerateSlabID for any.
  pub ledger_base-IsLawfulBase : IsLawfulBase (ledger_base ledger)
  unfolding ledger_base store remove retrieve generate_slab_id
  ledger_base-IsLawfulBase = record {
    read = read;
    retrieve-read = λ id s. retrieve_lem id s;
    read-retrieve = λ id j s. ap retrieved (
        laws.value-get id.address j.address (slab_index_to_ledger_key id.index)
          (slab_index_to_ledger_key j.index) s.ledger);
    store-other = λ id j bytes s n.
        read-write_other id j bytes (record s { bytes_stored = s.bytes_stored + length bytes }) n;
    store-self = λ id bytes s h e.
        read-write id bytes (record s { bytes_stored = s.bytes_stored + length bytes }) e
        ∙ filled bytes h;
    remove-other = λ id j s n. read-write_other id j [] s n;
    remove-self = λ id s e. read-write id [] s e;
    generate-read =
        λ address id s. ap retrieved (laws.value-allocate address id.address id.index s.ledger);
  }
