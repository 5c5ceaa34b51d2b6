-- ===== src/Tests/Storage.antt =====
-- Commits, reads and writes of a storage with two pending changes.
use atree.Prelude.{
  ℕ, ◌≡◌, ◌≢◌, refl, arith, List, [], ◌∷◌, Bool-cases, none, some, true, false, if◌then◌else◌, inl,
  inr,
}
use atree.Bytes.{Bytes8_eq, be_uint64}
use atree.SlabId.{has_temp_address, index_as_uint64, address_as_uint64}
use atree.Ids.{SlabId, SlabId_eq, SlabId_eq_iff, slab_id_undefined}
use atree.Errors.{ok, err, new_slab_data_error, wrap_result}
use atree.GoMap
use atree.GoMap.{GoMap}
use atree.Storage.Persistent.{
  PersistentSlabStorage, sorted_owned_delta_keys, owned, sort, insert_sorted, less, on_base, store,
  remove, retrieve_if_loaded, entry,
}
use atree.Storage.Retrieve.{retrieve}
use atree.Storage.View.{view}
use atree.Storage.Reads.{loaded, retrieve-store-remove-retrieve}
use atree.Storage.Base.{HasData}
use atree.Storage.Keys.{member, IsDistinct}
use atree.Storage.Commit.{commit, commit_keys, commit_key, settle, fast_commit, encode_entry}
use atree.Storage.Commit.Step.{IsPersisted}
use atree.Storage.Commit.Correct.{commit_keeps_view, commit_persists, commit_keeps_others}
use atree.Storage.Commit.Fast.{
  fast_commit-eq-commit, fast_commit_all_or_nothing, Arrived, IsEncodable,
}
use atree.Tests.Objects.{id_of, memory, memory_laws, byte_codec, encode_byte}

-- Slab 2 of account 1 is changed, its slab 1 removed, and a temporary slab is new; slab 1 was read
-- before.
abbrev pending : PersistentSlabStorage ℕ (GoMap (List ℕ))
pending = record {
  base_storage = (id_of 1 1, 7 ∷ []) ∷ [];
  cache = (id_of 1 1, some 7) ∷ [];
  deltas = (id_of 1 2, some 5) ∷ (id_of 0 3, some 6) ∷ (id_of 1 1, none) ∷ [];
  temp_slab_index = 3;
}

pending-IsDistinct : IsDistinct (GoMap.keys pending.deltas)
unfolding GoMap.keys member SlabId_eq Bytes8_eq
pending-IsDistinct = (refl, (refl, (refl, tt)))

pending-keys : sorted_owned_delta_keys pending ≡ id_of 1 1 ∷ id_of 1 2 ∷ []
unfolding sorted_owned_delta_keys owned sort insert_sorted less has_temp_address Bytes8_eq
    GoMap.keys index_as_uint64 address_as_uint64 be_uint64
pending-keys = refl

byte-HasData : HasData byte_codec
unfolding byte_codec encode_byte
byte-HasData slab bytes h = λ e. absurd (ground (arith, h, e))

account_2 : has_temp_address (id_of 1 2) ≡ false
unfolding has_temp_address Bytes8_eq
account_2 = refl

temporary_3 : has_temp_address (id_of 0 3) ≡ true
unfolding has_temp_address Bytes8_eq
temporary_3 = refl

change_2 : GoMap.lookup (id_of 1 2) pending.deltas ≡ some (some 5)
unfolding GoMap.lookup SlabId_eq Bytes8_eq
change_2 = refl

commit_done : (commit byte_codec memory pending).0 ≡ ok tt
unfolding commit commit_keys commit_key settle on_base memory byte_codec encode_byte wrap_result
    GoMap.lookup GoMap.insert GoMap.delete SlabId_eq sorted_owned_delta_keys owned sort
    insert_sorted less has_temp_address Bytes8_eq GoMap.keys index_as_uint64 address_as_uint64
    be_uint64
commit_done = refl

pending-Arrived : Arrived byte_codec memory (id_of 1 2 ∷ id_of 1 1 ∷ []) pending
unfolding member
pending-Arrived j = rw pending-keys (ground arith)

removed-IsEncodable :
    IsEncodable byte_codec memory (entry (GoMap.lookup (id_of 1 1) pending.deltas))
unfolding GoMap.lookup SlabId_eq Bytes8_eq
removed-IsEncodable = ([], refl)

changed-IsEncodable :
    IsEncodable byte_codec memory (entry (GoMap.lookup (id_of 1 2) pending.deltas))
unfolding GoMap.lookup SlabId_eq Bytes8_eq byte_codec encode_byte
changed-IsEncodable = (5 ∷ [], (refl, λ e. cc))

second :
    (j : SlabId)
    → member j (sorted_owned_delta_keys pending) ≡ true
    → SlabId_eq j (id_of 1 1) ≡ false
    → SlabId_eq j (id_of 1 2) ≡ true
unfolding member
second j m e = ground (arith, rw pending-keys at m, e)

pending-IsEncodable :
    (j : SlabId)
    → member j (sorted_owned_delta_keys pending) ≡ true
    → IsEncodable byte_codec memory (entry (GoMap.lookup j pending.deltas))
pending-IsEncodable j m = elim (Bool-cases (SlabId_eq j (id_of 1 1))) [
  | inl e ↦ rw ((SlabId_eq_iff j (id_of 1 1)).0 e) removed-IsEncodable
  | inr e ↦ rw ((SlabId_eq_iff j (id_of 1 2)).0 (second j m e)) changed-IsEncodable
]

commit_keeps_view_example :
    view byte_codec memory memory_laws (commit byte_codec memory pending).1 (id_of 1 1)
    ≡ view byte_codec memory memory_laws pending (id_of 1 1)
commit_keeps_view_example =
    commit_keeps_view byte_codec memory memory_laws pending pending-IsDistinct (id_of 1 1)

commit_persists_example :
    (GoMap.lookup (id_of 1 2) (commit byte_codec memory pending).1.deltas ≡ none)
    × IsPersisted byte_codec
        (some 5)
        (memory_laws.read (commit byte_codec memory pending).1.base_storage (id_of 1 2))
commit_persists_example =
    commit_persists byte_codec memory memory_laws pending pending-IsDistinct byte-HasData
      commit_done (id_of 1 2) (some 5) account_2 change_2

commit_keeps_others_example :
    (GoMap.lookup (id_of 0 3) (commit byte_codec memory pending).1.deltas
      ≡ GoMap.lookup (id_of 0 3) pending.deltas)
    × (memory_laws.read (commit byte_codec memory pending).1.base_storage (id_of 0 3)
        ≡ memory_laws.read pending.base_storage (id_of 0 3))
commit_keeps_others_example =
    commit_keeps_others byte_codec memory memory_laws pending pending-IsDistinct (id_of 0 3)
      (inl temporary_3)

fast_commit-eq-commit_example :
    fast_commit byte_codec memory (id_of 1 2 ∷ id_of 1 1 ∷ []) pending
    ≡ commit byte_codec memory pending
fast_commit-eq-commit_example =
    fast_commit-eq-commit byte_codec memory memory_laws (id_of 1 2 ∷ id_of 1 1 ∷ []) pending
      pending-IsDistinct pending-Arrived pending-IsEncodable

-- A slab that has no encoding.
abbrev unencodable : PersistentSlabStorage ℕ (GoMap (List ℕ))
unencodable = record pending { deltas = (id_of 1 4, some 255) ∷ [] }

unencodable-keys : sorted_owned_delta_keys unencodable ≡ id_of 1 4 ∷ []
unfolding sorted_owned_delta_keys owned sort insert_sorted less has_temp_address Bytes8_eq
    GoMap.keys
unencodable-keys = refl

unencodable-Arrived : Arrived byte_codec memory (id_of 1 4 ∷ []) unencodable
unencodable-Arrived j = rw unencodable-keys

unencodable-member : member (id_of 1 4) (sorted_owned_delta_keys unencodable) ≡ true
unfolding member SlabId_eq Bytes8_eq
unencodable-member = rw unencodable-keys

unencodable-fails :
    encode_entry byte_codec (entry (GoMap.lookup (id_of 1 4) unencodable.deltas))
    ≡ err new_slab_data_error
unfolding encode_entry byte_codec encode_byte GoMap.lookup SlabId_eq Bytes8_eq
unencodable-fails = refl

fast_commit_all_or_nothing_example :
    ((fast_commit byte_codec memory (id_of 1 4 ∷ []) unencodable).0 ≢ ok tt)
    × ((fast_commit byte_codec memory (id_of 1 4 ∷ []) unencodable).1 ≡ unencodable)
fast_commit_all_or_nothing_example =
    fast_commit_all_or_nothing byte_codec memory (id_of 1 4 ∷ []) unencodable (id_of 1 4)
      new_slab_data_error unencodable-Arrived unencodable-member unencodable-fails

-- A storage with no changes, over one encoded slab.
abbrev fresh : PersistentSlabStorage ℕ (GoMap (List ℕ))
fresh = record pending { deltas = []; cache = [] }

defined : id_of 1 1 ≢ slab_id_undefined
defined e = absurd (ground (arith, e))

retrieve-store-remove-retrieve_example :
    ((retrieve byte_codec memory (id_of 1 2) (store (id_of 1 1) 9 fresh).1).0 ≡ (
      if SlabId_eq (id_of 1 1) (id_of 1 2)
      then ok (some 9)
      else (retrieve byte_codec memory (id_of 1 2) fresh).0))
    × ((retrieve byte_codec memory (id_of 1 2) (remove (id_of 1 1) fresh).1).0 ≡ (
        if SlabId_eq (id_of 1 1) (id_of 1 2)
        then ok none
        else (retrieve byte_codec memory (id_of 1 2) fresh).0))
    × ((retrieve byte_codec memory (id_of 1 2) (retrieve byte_codec memory (id_of 1 1) fresh).1).0
        ≡ (retrieve byte_codec memory (id_of 1 2) fresh).0)
    × (retrieve_if_loaded (id_of 1 1) (retrieve byte_codec memory (id_of 1 1) fresh).1
        ≡ loaded byte_codec memory (retrieve byte_codec memory (id_of 1 1) fresh).0)
retrieve-store-remove-retrieve_example =
    retrieve-store-remove-retrieve byte_codec memory memory_laws (id_of 1 1) (id_of 1 2) 9 fresh
      defined
