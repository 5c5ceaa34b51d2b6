-- ===== src/Storage/Interface.antt =====
-- The interface SlabStorage of storage.go, as the containers use it, and what it promises.
use atree.Prelude.{ℕ, suc, ◌≡◌, ◌<◌, Bool, true, false, Option, none, some, if◌then◌else◌}
use atree.Bytes.{Bytes8, Bytes8_eq}
use atree.Ids.{SlabId, SlabId_eq}
use atree.Errors.{Result, ok, wrap_result}
use atree.Action.{Action}

pub record SlabStorage (S Slab : Type 0) : Type 0 where
  pub store : SlabId → Slab → Action S (Unit {0})
  pub retrieve : SlabId → Action S (Option Slab)
  pub remove : SlabId → Action S (Unit {0})
  pub generate_slab_id : Bytes8 → Action S SlabId

-- A call of the interface from the library: an error is wrapped.
abbrev pub wrapped : {S A : Type 0} → Action S A → Action S A
wrapped m s = (wrap_result (m s).0, (m s).1)

-- What can be said of a state: what `Retrieve` returns under an ID, whether the ID has been given
-- out, and how many IDs are left at an address.
pub record StorageView (S Slab : Type 0) : Type 0 where
  pub held : S → SlabId → Result (Option Slab)
  pub used : S → SlabId → Bool
  pub room : S → Bytes8 → ℕ

module _ {S Slab : Type 0} (view : StorageView S Slab) where
  -- The same IDs have been given out.
  pub record IssuesSame (s s' : S) : Type 0 where
    pub used : (j : SlabId) → view.used s' j ≡ view.used s j
    pub room : (address : Bytes8) → view.room s' address ≡ view.room s address

  -- The new ID of GenerateSlabID.
  pub record Issues (address : Bytes8) (id : SlabId) (s s' : S) : Type 0 where
    pub held : (j : SlabId) → view.held s' j ≡ view.held s j
    pub at_address : id.address ≡ address
    pub fresh : view.used s id ≡ false
    pub taken : view.used s' id ≡ true
    pub kept : (j : SlabId) → view.used s j ≡ true → view.used s' j ≡ true
    pub room : suc (view.room s' address) ≡ view.room s address
    pub room_other : (a : Bytes8) → Bytes8_eq a address ≡ false → view.room s' a ≡ view.room s a

-- A storage that behaves as a map of slabs under the IDs it has given out. A write is promised to
-- succeed under such an ID, and a new ID where one is left.
pub record IsLawfulStorage {S Slab : Type 0} (storage : SlabStorage S Slab)
    (view : StorageView S Slab) : Type 0 where
  pub retrieve-held :
      (id : SlabId) (s : S)
      → (s' : S) × (storage.retrieve id s ≡ (view.held s id, s'))
        × ((j : SlabId) → view.held s' j ≡ view.held s j)
        × IssuesSame view s s'
  pub store-held :
      (id : SlabId) (slab : Slab) (s : S)
      → view.used s id ≡ true
      → (s' : S) × (storage.store id slab s ≡ (ok tt, s'))
        × ((j : SlabId)
            → view.held s' j ≡ (if SlabId_eq id j then ok (some slab) else view.held s j))
        × IssuesSame view s s'
  pub remove-held :
      (id : SlabId) (s : S)
      → view.used s id ≡ true
      → (s' : S) × (storage.remove id s ≡ (ok tt, s'))
        × ((j : SlabId) → view.held s' j ≡ (if SlabId_eq id j then ok none else view.held s j))
        × IssuesSame view s s'
  pub generate-Issues :
      (address : Bytes8) (s : S)
      → 0 < view.room s address
      → (id : SlabId) × (s' : S) × (storage.generate_slab_id address s ≡ (ok id, s'))
        × Issues view address id s s'
