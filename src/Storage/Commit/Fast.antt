-- ===== src/Storage/Commit/Fast.antt =====
-- FastCommit against Commit (storage.go).
use atree.Prelude.{
  ℕ, ◌≡◌, ◌≢◌, refl, sym, ◌∙◌, true, false, inl, inr, ◌⊎◌, Option, none, some, List, [], ◌∷◌, arith,
  Bool-cases,
}
use atree.Ids.{SlabId, SlabId_eq, SlabId_eq_iff}
use atree.Errors
use atree.Errors.{Error, Result, ok, err, panic}
use atree.Action.{Action, continue}
use atree.GoMap
use atree.GoMap.{GoMap, lookup-insert}
use atree.Storage.Base.{BaseStorage, Codec, IsLawfulBase}
use atree.Storage.Persistent.{PersistentSlabStorage, sorted_owned_delta_keys, entry}
use atree.Storage.Keys.{
  member, IsDistinct, SlabId_eq_comm, SlabId_eq_refl, sorted_owned_delta_keys-IsDistinct,
}
use atree.Storage.Commit.{
  commit_key, commit_keys, commit, write_key, write_keys, bytes_of, encode_entry, collect_results,
  fast_commit,
}
use atree.Storage.Commit.Step.{commit_key-IsCommitStep}
use atree.Storage.Commit.Run.{ArePending, sorted_owned_delta_keys-ArePending}

apart :
    (id j : SlabId) (ids : List SlabId)
    → member id ids ≡ false
    → member j ids ≡ true
    → SlabId_eq id j ≡ false
apart id j ids h m = ground (arith, SlabId_eq_iff id j, h, m)

bind-ne-ok :
    {A C : Type 0} (r : Result A) (f : A → Result C) (c : C)
    → ((a : A) → f a ≢ ok c)
    → Errors.◌>>=◌ r f ≢ ok c
bind-ne-ok (ok a) f c h = h a
bind-ne-ok (err x) f c h = λ e. cc
bind-ne-ok panic f c h = λ e. cc

continue-ne-ok :
    {S A : Type 0} (r : Result A) (f : A → Action S (Unit {0})) (s : S)
    → ((a : A) → r ≢ ok a)
    → ((continue r f s).0 ≢ ok tt) × ((continue r f s).1 ≡ s)
continue-ne-ok (ok a) f s h = absurd (h a refl)
continue-ne-ok (err x) f s h = ((λ e. cc), refl)
continue-ne-ok panic f s h = ((λ e. cc), refl)

continue_same :
    {S : Type 0} (f g : Action S (Unit {0})) (r : Result (Unit {0})) (s : S)
    → f s ≡ g s
    → continue r (λ _. f) s ≡ continue r (λ _. g) s
continue_same f g (ok _) s e = e
continue_same f g (err x) s e = refl
continue_same f g panic s e = refl

module _ {Slab B : Type 0} (codec : Codec Slab) (base : BaseStorage B) where
  -- Data that a worker sends for a change without an error, and from which the change can be told.
  abbrev pub IsEncoded : Option Slab → List ℕ → Type 0
  IsEncoded none bytes = bytes ≡ []
  IsEncoded (some slab) bytes = (codec.encode_slab slab ≡ ok bytes) × (bytes ≢ [])

  -- The slab is gone, or its encoder succeeds with data that is not empty.
  abbrev pub IsEncodable : Option Slab → Type 0
  IsEncodable change = (bytes : List ℕ) × IsEncoded change bytes

  encode_entry-IsEncoded :
      (change : Option Slab) (bytes : List ℕ)
      → IsEncoded change bytes
      → encode_entry codec change ≡ ok bytes
  unfolding encode_entry
  encode_entry-IsEncoded none bytes h = rw h
  encode_entry-IsEncoded (some slab) bytes h = h.0

  write_key-eq-commit_key :
      (id : SlabId) (change : Option Slab) (bytes : List ℕ) (s : PersistentSlabStorage Slab B)
      → GoMap.lookup id s.deltas ≡ some change
      → IsEncoded change bytes
      → write_key codec base id bytes s ≡ commit_key codec base id s
  unfolding write_key commit_key
  write_key-eq-commit_key id none bytes s p h = rw (h, p, commit_key)
  write_key-eq-commit_key id (some slab) [] s p h = absurd (h.1 refl)
  write_key-eq-commit_key id (some slab) (b ∷ bytes) s p h = rw (p, commit_key, h.0)

  -- The data collected for the first result, and for the others.
  first :
      (id j : SlabId) (bytes : List ℕ) (deltas : GoMap (Option Slab)) (encoded : GoMap (List ℕ))
      → j ≡ id
      → IsEncoded (entry (GoMap.lookup id deltas)) bytes
      → IsEncoded
          (entry (GoMap.lookup j deltas))
          (bytes_of (GoMap.lookup j (GoMap.insert id bytes encoded)))
  first id j bytes deltas encoded same e =
      rw (same, lookup-insert id id bytes encoded, SlabId_eq_refl id) e

  later :
      (id j : SlabId) (bytes : List ℕ) (deltas : GoMap (Option Slab)) (encoded : GoMap (List ℕ))
      → SlabId_eq j id ≡ false
      → IsEncoded (entry (GoMap.lookup j deltas)) (bytes_of (GoMap.lookup j encoded))
      → IsEncoded
          (entry (GoMap.lookup j deltas))
          (bytes_of (GoMap.lookup j (GoMap.insert id bytes encoded)))
  later id j bytes deltas encoded other e =
      rw (lookup-insert id j bytes encoded, SlabId_eq_comm id j, other) e

  collect_results-ok :
      (ids : List SlabId) (deltas : GoMap (Option Slab)) (encoded : GoMap (List ℕ))
      → ((j : SlabId) → member j ids ≡ true → IsEncodable (entry (GoMap.lookup j deltas)))
      → (result : GoMap (List ℕ)) × (collect_results codec ids deltas encoded ≡ ok result)
        × ((j : SlabId)
            → (member j ids ≡ true)
              ⊎ IsEncoded (entry (GoMap.lookup j deltas)) (bytes_of (GoMap.lookup j encoded))
            → IsEncoded (entry (GoMap.lookup j deltas)) (bytes_of (GoMap.lookup j result)))
  unfolding collect_results member
  collect_results-ok [] deltas encoded all =
      (encoded, refl, λ j h. elim h [ inl m ↦ absurd (ground arith) | inr e ↦ e ])
  collect_results-ok (id ∷ ids) deltas encoded all =
      let (bytes, e) = all id (ground (arith, SlabId_eq_iff id id)) in
      let (result, done, holds) =
        collect_results-ok ids deltas (GoMap.insert id bytes encoded)
          (λ j m. all j (ground (arith, m))) in
      (
        result,
        rw (encode_entry-IsEncoded (entry (GoMap.lookup id deltas)) bytes e) done,
        λ j h. holds j (elim (Bool-cases (SlabId_eq j id)) [
          | inl same ↦ inr (first id j bytes deltas encoded ((SlabId_eq_iff j id).0 same) e)
          | inr other ↦ elim h [
            | inl m ↦ inl (ground (arith, m))
            | inr f ↦ inr (later id j bytes deltas encoded other f)
          ]
        ]),
      )

  write_keys-eq-commit_keys :
      (lawful : IsLawfulBase base) (ids : List SlabId) (encoded : GoMap (List ℕ))
      (s : PersistentSlabStorage Slab B)
      → IsDistinct ids
      → ArePending ids s
      → ((j : SlabId)
          → member j ids ≡ true
          → IsEncoded (entry (GoMap.lookup j s.deltas)) (bytes_of (GoMap.lookup j encoded)))
      → write_keys codec base ids encoded s ≡ commit_keys codec base ids s
  unfolding write_keys commit_keys member
  write_keys-eq-commit_keys lawful [] encoded s d p h = refl
  write_keys-eq-commit_keys lawful (id ∷ ids) encoded s d p h =
      let self : member id (id ∷ ids) ≡ true = ground (arith, SlabId_eq_iff id id) in
      let (change, pending) = p id self in
      let step = commit_key-IsCommitStep codec base lawful id change s pending in
      let s' = (commit_key codec base id s).1 in
      let same : (j : SlabId)
          → member j ids ≡ true
          → GoMap.lookup j s'.deltas ≡ GoMap.lookup j s.deltas =
        λ j m. step.other_deltas j (apart id j ids d.0 m) in
      rw
        (write_key-eq-commit_key id change (bytes_of (GoMap.lookup id encoded)) s pending
          (rw pending at (h id self)))
        (continue_same _ _ (commit_key codec base id s).0 s' (
          write_keys-eq-commit_keys lawful ids encoded s' d.1
            (λ j m. let (c, q) = p j (ground (arith, m)) in (c, same j m ∙ q))
            (λ j m. rw (same j m) (h j (ground (arith, m))))))

  -- The results of the workers are for the keys to be committed, and for each of them.
  abbrev pub Arrived : List SlabId → PersistentSlabStorage Slab B → Type 0
  Arrived arrivals s = (j : SlabId) → member j arrivals ≡ member j (sorted_owned_delta_keys s)

  -- Over a lawful base storage, with one entry for each pending ID, where the workers' results are
  -- for exactly the keys to commit and each slab to commit has an encoding that is not empty: in
  -- whatever order the results arrive, FastCommit has the same result and the same final state as
  -- Commit.
  pub fast_commit-eq-commit :
      (lawful : IsLawfulBase base) (arrivals : List SlabId) (s : PersistentSlabStorage Slab B)
      → IsDistinct (GoMap.keys s.deltas)
      → Arrived arrivals s
      → ((j : SlabId)
          → member j (sorted_owned_delta_keys s) ≡ true
          → IsEncodable (entry (GoMap.lookup j s.deltas)))
      → fast_commit codec base arrivals s ≡ commit codec base s
  unfolding fast_commit commit commit_keys
  fast_commit-eq-commit lawful arrivals s d arrived all =
      let (encoded, done, holds) =
        collect_results-ok arrivals s.deltas [] (λ j m. all j (sym (arrived j) ∙ m)) in
      run encoded done holds (sorted_owned_delta_keys s) refl
    where
      run :
          (encoded : GoMap (List ℕ))
          → collect_results codec arrivals s.deltas [] ≡ ok encoded
          → ((j : SlabId)
              → (member j arrivals ≡ true)
                ⊎ IsEncoded (entry (GoMap.lookup j s.deltas)) (bytes_of (GoMap.lookup j []))
              → IsEncoded (entry (GoMap.lookup j s.deltas)) (bytes_of (GoMap.lookup j encoded)))
          → (ids : List SlabId) → sorted_owned_delta_keys s ≡ ids
          → fast_commit codec base arrivals s ≡ commit_keys codec base ids s
      run encoded done holds [] e = rw (e, fast_commit, commit_keys)
      run encoded done holds (id ∷ ids) e =
          rw (e, fast_commit, done)
            (write_keys-eq-commit_keys lawful (id ∷ ids) encoded s
              (rw e at (sorted_owned_delta_keys-IsDistinct s d))
              (λ j m. sorted_owned_delta_keys-ArePending codec base lawful s j (rw e m))
              (λ j m. holds j (inl (arrived j ∙ rw e m))))

  collect_results-fails :
      (ids : List SlabId) (deltas : GoMap (Option Slab)) (encoded : GoMap (List ℕ)) (id : SlabId)
      (x : Error)
      → member id ids ≡ true
      → encode_entry codec (entry (GoMap.lookup id deltas)) ≡ err x
      → (result : GoMap (List ℕ)) → collect_results codec ids deltas encoded ≢ ok result
  unfolding collect_results member
  collect_results-fails [] deltas encoded id x m e result h = absurd (ground arith)
  collect_results-fails (j ∷ ids) deltas encoded id x m e result h =
      elim (Bool-cases (SlabId_eq id j)) [
        | inl same ↦ ground (arith, (SlabId_eq_iff id j).0 same, e, h)
        | inr other ↦
            bind-ne-ok (encode_entry codec (entry (GoMap.lookup j deltas))) _ result
              (λ bytes.
                collect_results-fails ids deltas (GoMap.insert j bytes encoded) id x
                  (ground (arith, m, other)) e result)
              h
      ]

  -- Where the workers' results are for exactly the keys to commit and the encoder fails for one of
  -- the slabs to commit, FastCommit does not succeed and changes nothing, in whatever order the
  -- results arrive.
  pub fast_commit_all_or_nothing :
      (arrivals : List SlabId) (s : PersistentSlabStorage Slab B) (id : SlabId) (x : Error)
      → Arrived arrivals s
      → member id (sorted_owned_delta_keys s) ≡ true
      → encode_entry codec (entry (GoMap.lookup id s.deltas)) ≡ err x
      → ((fast_commit codec base arrivals s).0 ≢ ok tt)
        × ((fast_commit codec base arrivals s).1 ≡ s)
  unfolding fast_commit member
  fast_commit_all_or_nothing arrivals s id x arrived m e = go (sorted_owned_delta_keys s) refl
    where
      fails : (result : GoMap (List ℕ)) → collect_results codec arrivals s.deltas [] ≢ ok result
      fails = collect_results-fails arrivals s.deltas [] id x (arrived id ∙ m) e

      go :
          (ids : List SlabId)
          → sorted_owned_delta_keys s ≡ ids
          → ((fast_commit codec base arrivals s).0 ≢ ok tt)
            × ((fast_commit codec base arrivals s).1 ≡ s)
      go [] f = absurd (ground (arith, f, m, member))
      go (k ∷ ids) f =
          rw (f, fast_commit)
            (continue-ne-ok (collect_results codec arrivals s.deltas [])
              (write_keys codec base (k ∷ ids)) s fails)
