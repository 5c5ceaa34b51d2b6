-- ===== src/Storage/Commit.antt =====
-- Commit and FastCommit of storage.go.
pub mod Step
pub mod Run
pub mod Correct
pub mod Fast
use atree.Prelude.{ℕ, ◌≡◌, Bool, true, false, Option, none, some, List, [], ◌∷◌, if◌then◌else◌}
use atree.Ids.{SlabId}
use atree.Errors.{Result, ok, err, panic}
use atree.Errors
use atree.Action.{Action, pure, lift, continue, ◌>>=◌, ◌>>◌}
use atree.GoMap
use atree.GoMap.{GoMap}
use atree.Storage.Base.{BaseStorage, Codec}
use atree.Storage.Persistent.{PersistentSlabStorage, on_base, entry, sorted_owned_delta_keys}

module _ {Slab B : Type 0} where
  -- A committed change leaves `deltas` and goes into the read cache.
  unfoldable pub settle : SlabId → Option Slab → Action (PersistentSlabStorage Slab B) (Unit {0})
  settle id slab s =
      (ok tt, record s { cache = GoMap.insert id slab s.cache; deltas = GoMap.delete id s.deltas })

-- A missing entry of `encSlabByID` reads as nil.
abbrev pub bytes_of : Option (List ℕ) → List ℕ
bytes_of none = []
bytes_of (some bytes) = bytes

module _ {Slab : Type 0} (codec : Codec Slab) where
  -- What a worker of FastCommit sends for a key: nil data for a removed slab.
  unfoldable pub encode_entry : Option Slab → Result (List ℕ)
  encode_entry none = ok []
  encode_entry (some slab) = codec.encode_slab slab

  -- The results are read in the order in which the workers send them, up to the first error.
  unfoldable pub collect_results :
      List SlabId → GoMap (Option Slab) → GoMap (List ℕ) → Result (GoMap (List ℕ))
  collect_results [] deltas encoded = ok encoded
  collect_results (id ∷ ids) deltas encoded =
      Errors.◌>>=◌ (encode_entry (entry (GoMap.lookup id deltas)))
        (λ bytes. collect_results ids deltas (GoMap.insert id bytes encoded))

module _ {Slab B : Type 0} (codec : Codec Slab) (base : BaseStorage B) where
  -- One round of the loop in `commit`.
  unfoldable pub commit_key : SlabId → Action (PersistentSlabStorage Slab B) (Unit {0})
  commit_key id s = elim (entry (GoMap.lookup id s.deltas)) [
    | none ↦ (on_base (base.remove id) >> settle id none) s
    | some slab ↦
        (do
          bytes ← lift (codec.encode_slab slab)
          on_base (base.store id bytes)
          settle id (some slab))
          s
  ]

  unfoldable pub commit_keys : List SlabId → Action (PersistentSlabStorage Slab B) (Unit {0})
  commit_keys [] s = (ok tt, s)
  commit_keys (id ∷ ids) s = (commit_key id >> commit_keys ids) s

  unfoldable pub commit : Action (PersistentSlabStorage Slab B) (Unit {0})
  commit s = commit_keys (sorted_owned_delta_keys s) s

  -- One round of the last loop of FastCommit, on the data collected for the key.
  unfoldable pub write_key : SlabId → List ℕ → Action (PersistentSlabStorage Slab B) (Unit {0})
  write_key id [] s = (on_base (base.remove id) >> settle id none) s
  write_key id (b ∷ bytes) s =
      (on_base (base.store id (b ∷ bytes)) >> settle id (entry (GoMap.lookup id s.deltas))) s

  unfoldable pub write_keys :
      List SlabId → GoMap (List ℕ) → Action (PersistentSlabStorage Slab B) (Unit {0})
  write_keys [] encoded s = (ok tt, s)
  write_keys (id ∷ ids) encoded s =
      (write_key id (bytes_of (GoMap.lookup id encoded)) >> write_keys ids encoded) s

  -- `arrivals` is the order in which the results of the workers, at least one, arrive.
  unfoldable pub fast_commit : List SlabId → Action (PersistentSlabStorage Slab B) (Unit {0})
  fast_commit arrivals s = elim (sorted_owned_delta_keys s) [
    | [] ↦ (ok tt, s)
    | id ∷ ids ↦ (lift (collect_results codec arrivals s.deltas []) >>= write_keys (id ∷ ids)) s
  ]
