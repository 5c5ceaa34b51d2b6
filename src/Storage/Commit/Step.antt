-- ===== src/Storage/Commit/Step.antt =====
-- One round of the commit loops (storage.go, `commit` and FastCommit).
use atree.Prelude.{ℕ, ◌≡◌, refl, ◌∙◌, false, Option, none, some, List, arith, if◌then◌else◌}
use atree.Ids.{SlabId, SlabId_eq, SlabId_eq_iff}
use atree.Errors.{Result, ok, err, panic, wrap_result}
use atree.Action
use atree.Action.{continue}
use atree.GoMap
use atree.GoMap.{GoMap, lookup-insert, lookup-delete}
use atree.Storage.Base.{BaseStorage, Codec, IsLawfulBase, HasData}
use atree.Storage.Persistent.{PersistentSlabStorage, on_base}
use atree.Storage.View.{view}
use atree.Storage.Keys.{SlabId_eq_refl}
use atree.Storage.Commit.{settle, commit_key}

module _ {Slab : Type 0} (codec : Codec Slab) where
  -- What a base storage returns for a change once it is committed: the slab's encoding, or no data
  -- for a removed slab.
  abbrev pub IsPersisted : Option Slab → Result (Option (List ℕ)) → Type 0
  IsPersisted none r = r ≡ ok none
  IsPersisted (some slab) r =
      (bytes : List ℕ) × (codec.encode_slab slab ≡ ok bytes) × (r ≡ ok (some bytes))

module _ {Slab B : Type 0} (codec : Codec Slab) (base : BaseStorage B)
    (lawful : IsLawfulBase base) where
  -- A new base storage state that reads as before at all IDs but one.
  abbrev pub AgreesOff : SlabId → B → B → Type 0
  AgreesOff id b b' = (j : SlabId) → SlabId_eq id j ≡ false → lawful.read b' j ≡ lawful.read b j

  module _ (id : SlabId) (change : Option Slab) (s : PersistentSlabStorage Slab B) (b : B)
      (pending : GoMap.lookup id s.deltas ≡ some change)
      (agrees : AgreesOff id s.base_storage b) where
    view-rebased :
        (j : SlabId)
        → view codec base lawful (record s { base_storage = b }) j ≡ view codec base lawful s j
    unfolding view
    view-rebased j = ground (arith, agrees j, SlabId_eq_iff id j, pending)

    view-settle :
        (j : SlabId)
        → view codec base lawful (settle id change (record s { base_storage = b })).1 j
          ≡ view codec base lawful s j
    unfolding view settle
    view-settle j = ground (
      arith,
      agrees j,
      SlabId_eq_iff id j,
      pending,
      lookup-insert id j change s.cache,
      lookup-delete id j s.deltas,
    )

    pub view-written :
        (r : Result (Unit {0})) (j : SlabId)
        → view codec base lawful
            (continue (wrap_result r) (λ _. settle id change) (record s { base_storage = b })).1
            j
          ≡ view codec base lawful s j
    unfolding wrap_result
    view-written (ok _) j = view-settle j
    view-written (err e) j = view-rebased j
    view-written panic j = view-rebased j

    deltas-settle :
        (j : SlabId)
        → GoMap.lookup j (settle id change (record s { base_storage = b })).1.deltas
          ≡ (if SlabId_eq id j then none else GoMap.lookup j s.deltas)
    unfolding settle
    deltas-settle j = lookup-delete id j s.deltas

  -- What a round for `id` leaves, whether it succeeds or not.
  pub record IsCommitStep (id : SlabId) (change : Option Slab) (s : PersistentSlabStorage Slab B)
      (r : Result (Unit {0}) × PersistentSlabStorage Slab B) : Type 0 where
    pub same_view : (j : SlabId) → view codec base lawful r.1 j ≡ view codec base lawful s j
    pub other_deltas :
        (j : SlabId) → SlabId_eq id j ≡ false → GoMap.lookup j r.1.deltas ≡ GoMap.lookup j s.deltas
    pub other_data : AgreesOff id s.base_storage r.1.base_storage
    pub settled : r.0 ≡ ok tt → GoMap.lookup id r.1.deltas ≡ none
    pub written :
        HasData codec → r.0 ≡ ok tt → IsPersisted codec change (lawful.read r.1.base_storage id)

  module _ (id : SlabId) (change : Option Slab) (s : PersistentSlabStorage Slab B)
      (pending : GoMap.lookup id s.deltas ≡ some change) where
    -- A call of the base storage, then the bookkeeping.
    pub written-IsCommitStep :
        (r : Result (Unit {0})) (b : B)
        → AgreesOff id s.base_storage b
        → (HasData codec → r ≡ ok tt → IsPersisted codec change (lawful.read b id))
        → IsCommitStep id change s
            (continue (wrap_result r) (λ _. settle id change) (record s { base_storage = b }))
    unfolding wrap_result
    written-IsCommitStep (ok _) b agrees w = record {
      same_view = view-written id change s b pending agrees (ok tt);
      other_deltas = λ j h. deltas-settle id change s b pending agrees j ∙ rw h;
      other_data = unfold settle in agrees;
      settled = λ _. deltas-settle id change s b pending agrees id ∙ rw (SlabId_eq_refl id);
      written = λ filled _. unfold settle in w filled refl;
    }
    written-IsCommitStep (err e) b agrees w = record {
      same_view = view-written id change s b pending agrees (err e);
      other_deltas = λ j h. refl;
      other_data = agrees;
      settled = λ h. absurd (ground arith);
      written = λ filled h. absurd (ground arith);
    }
    written-IsCommitStep panic b agrees w = record {
      same_view = view-written id change s b pending agrees panic;
      other_deltas = λ j h. refl;
      other_data = agrees;
      settled = λ h. absurd (ground arith);
      written = λ filled h. absurd (ground arith);
    }

    -- A failure before anything is written.
    unwritten-IsCommitStep :
        (r : Result (Unit {0})) → (r ≡ ok tt → ⊥) → IsCommitStep id change s (r, s)
    unwritten-IsCommitStep r no_success = record {
      same_view = λ j. refl;
      other_deltas = λ j h. refl;
      other_data = λ j h. refl;
      settled = λ h. absurd (no_success h);
      written = λ filled h. absurd (no_success h);
    }

  commit_removed-IsCommitStep :
      (id : SlabId) (s : PersistentSlabStorage Slab B)
      → GoMap.lookup id s.deltas ≡ some none
      → IsCommitStep id none s (commit_key codec base id s)
  unfolding commit_key on_base
  commit_removed-IsCommitStep id s pending =
      rw (pending, commit_key)
        (written-IsCommitStep id none s pending (base.remove id s.base_storage).0 _
          (λ j h. lawful.remove-other id j s.base_storage h)
          (λ filled. lawful.remove-self id s.base_storage))

  stored-IsCommitStep :
      (id : SlabId) (slab : Slab) (s : PersistentSlabStorage Slab B) (r : Result (List ℕ))
      → GoMap.lookup id s.deltas ≡ some (some slab)
      → codec.encode_slab slab ≡ r
      → IsCommitStep id (some slab) s (
          continue r
            (λ bytes. Action.◌>>◌ (on_base (base.store id bytes)) (settle id (some slab)))
            s)
  unfolding on_base
  stored-IsCommitStep id slab s (ok bytes) pending e =
      written-IsCommitStep id (some slab) s pending (base.store id bytes s.base_storage).0 _
        (λ j h. lawful.store-other id j bytes s.base_storage h)
        (λ filled h. (bytes, e, lawful.store-self id bytes s.base_storage (filled slab bytes e) h))
  stored-IsCommitStep id slab s (err x) pending e =
      unwritten-IsCommitStep id (some slab) s pending (err x) (λ h. ground arith)
  stored-IsCommitStep id slab s panic pending e =
      unwritten-IsCommitStep id (some slab) s pending panic (λ h. ground arith)

  pub commit_key-IsCommitStep :
      (id : SlabId) (change : Option Slab) (s : PersistentSlabStorage Slab B)
      → GoMap.lookup id s.deltas ≡ some change
      → IsCommitStep id change s (commit_key codec base id s)
  commit_key-IsCommitStep id none s pending = commit_removed-IsCommitStep id s pending
  commit_key-IsCommitStep id (some slab) s pending =
      unfold commit_key in
      rw (pending, commit_key) (stored-IsCommitStep id slab s (codec.encode_slab slab) pending refl)
