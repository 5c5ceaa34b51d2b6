-- ===== src/Storage/Commit/Correct.antt =====
-- What Commit promises (storage.go).
use atree.Prelude.{
  ℕ, ◌≡◌, refl, sym, ap, ◌∙◌, true, false, inl, inr, ◌⊎◌, Option, none, some, List, arith,
  Option-cases,
}
use atree.Ids.{SlabId}
use atree.Errors.{Result, ok, wrap_result}
use atree.SlabId.{has_temp_address}
use atree.GoMap
use atree.Storage.Base.{BaseStorage, Codec, IsLawfulBase, HasData}
use atree.Storage.Persistent.{
  PersistentSlabStorage, sorted_owned_delta_keys, drop_cache, drop_deltas,
}
use atree.Storage.View.{view, decoded, view-pending, view-cached, view-base}
use atree.Storage.Keys.{
  member, IsDistinct, member-keys-none, lookup-none-member, member-sorted_owned_delta_keys,
}
use atree.Storage.Commit.{commit}
use atree.Storage.Commit.Step.{IsPersisted}
use atree.Storage.Commit.Run.{commit-IsCommitRun}

module _ {Slab B : Type 0} (codec : Codec Slab) (base : BaseStorage B)
    (lawful : IsLawfulBase base) where
  member-pending :
      (j : SlabId) (change : Option Slab) (s : PersistentSlabStorage Slab B)
      → has_temp_address j ≡ false
      → GoMap.lookup j s.deltas ≡ some change
      → member j (sorted_owned_delta_keys s) ≡ true
  member-pending j change s owned p =
      ground (arith, member-sorted_owned_delta_keys s j, owned, p, member-keys-none j s.deltas)

  -- Over a lawful base storage, and with one entry for each pending ID, Commit changes nothing
  -- that the storage shows, whether it succeeds or stops at an error of the encoder or of the base
  -- storage.
  pub commit_keeps_view :
      (s : PersistentSlabStorage Slab B)
      → IsDistinct (GoMap.keys s.deltas)
      → (j : SlabId) → view codec base lawful (commit codec base s).1 j ≡ view codec base lawful s j
  commit_keeps_view s d j = (commit-IsCommitRun codec base lawful s d).same_view j

  -- Over a lawful base storage, with one entry for each pending ID, and where encoded slabs have
  -- data, after a successful Commit each pending change of an account's slab is no longer pending, and the base storage holds the
  -- slab's encoding, or nothing for a removed slab.
  pub commit_persists :
      (s : PersistentSlabStorage Slab B)
      → IsDistinct (GoMap.keys s.deltas)
      → HasData codec
      → (commit codec base s).0 ≡ ok tt
      → (j : SlabId) (change : Option Slab) → has_temp_address j ≡ false
      → GoMap.lookup j s.deltas ≡ some change
      → (GoMap.lookup j (commit codec base s).1.deltas ≡ none)
        × IsPersisted codec change (lawful.read (commit codec base s).1.base_storage j)
  commit_persists s d filled done j change owned p =
      let run = commit-IsCommitRun codec base lawful s d in
      let m = member-pending j change s owned p in
      (run.settled j done m, run.written j change filled done m p)

  -- Over a lawful base storage, and with one entry for each pending ID, Commit leaves the pending
  -- entry and the base data of each ID that has the temporary address or that is not pending as
  -- they were, whether it succeeds or not.
  pub commit_keeps_others :
      (s : PersistentSlabStorage Slab B)
      → IsDistinct (GoMap.keys s.deltas)
      → (j : SlabId) → (has_temp_address j ≡ true) ⊎ (GoMap.lookup j s.deltas ≡ none)
      → (GoMap.lookup j (commit codec base s).1.deltas ≡ GoMap.lookup j s.deltas)
        × (lawful.read (commit codec base s).1.base_storage j ≡ lawful.read s.base_storage j)
  commit_keeps_others s d j h =
      let run = commit-IsCommitRun codec base lawful s d in
      let m : member j (sorted_owned_delta_keys s) ≡ false =
        ground (arith, member-sorted_owned_delta_keys s j, h, lookup-none-member j s.deltas) in
      (run.other_deltas j m, run.other_data j m)

  -- A pending slab decodes to itself, from its encoding and the ID that it is pending under:
  -- DecodeSlab gives the slab the ID that it is called with.
  abbrev pub RoundTrips : PersistentSlabStorage Slab B → Type 0
  RoundTrips s =
      (id : SlabId) (slab : Slab) (bytes : List ℕ)
      → GoMap.lookup id s.deltas ≡ some (some slab)
      → codec.encode_slab slab ≡ ok bytes
      → codec.decode_slab id bytes ≡ ok slab

  -- The read cache agrees with the base storage at IDs with no pending change.
  abbrev pub IsCoherent : PersistentSlabStorage Slab B → Type 0
  IsCoherent s =
      (j : SlabId) (slab : Option Slab)
      → GoMap.lookup j s.deltas ≡ none
      → GoMap.lookup j s.cache ≡ some slab
      → decoded codec j (lawful.read s.base_storage j) ≡ ok slab

  decoded-IsPersisted :
      (id : SlabId) (change : Option Slab) (r : Result (Option (List ℕ)))
      → ((slab : Slab) (bytes : List ℕ)
          → change ≡ some slab
          → codec.encode_slab slab ≡ ok bytes
          → codec.decode_slab id bytes ≡ ok slab)
      → IsPersisted codec change r
      → decoded codec id r ≡ ok change
  unfolding decoded wrap_result
  decoded-IsPersisted id none r trips h = rw h
  decoded-IsPersisted id (some slab) r trips h = rw (h.2, decoded, trips slab h.0 refl h.1)

  -- Over a lawful base storage, with one entry for each pending ID, where encoded slabs have data,
  -- a pending slab's encoding decodes to it under its ID, and the cache agrees with the base storage at IDs that are not pending: after a
  -- successful Commit, the storage with its cache and its changes dropped shows every account's
  -- slab as it was shown before the Commit.
  pub commit_reopen :
      (s : PersistentSlabStorage Slab B)
      → IsDistinct (GoMap.keys s.deltas)
      → HasData codec
      → RoundTrips s
      → IsCoherent s
      → (commit codec base s).0 ≡ ok tt
      → (j : SlabId) → has_temp_address j ≡ false
      → view codec base lawful (drop_cache (drop_deltas (commit codec base s).1)) j
        ≡ view codec base lawful s j
  unfolding drop_cache drop_deltas GoMap.lookup
  commit_reopen s d filled trips coherent done j owned =
      let s' = (commit codec base s).1 in
      let fresh = view-base codec base lawful (drop_cache (drop_deltas s')) j refl refl in
      fresh ∙ elim (Option-cases (GoMap.lookup j s.deltas)) [
        | inl e ↦
            ap (decoded codec j) (commit_keeps_others s d j (inr e)).1
            ∙ elim (Option-cases (GoMap.lookup j s.cache)) [
              | inl f ↦ sym (view-base codec base lawful s j e f)
              | inr (slab, f) ↦
                  coherent j slab e f ∙ sym (view-cached codec base lawful s j slab e f)
            ]
        | inr (change, e) ↦
            decoded-IsPersisted j change _
              (λ slab bytes same h. trips j slab bytes (e ∙ ap some same) h)
              (commit_persists s d filled done j change owned e).1
            ∙ sym (view-pending codec base lawful s j change e)
      ]
