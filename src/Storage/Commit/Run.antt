-- ===== src/Storage/Commit/Run.antt =====
-- The loop of `commit` over distinct keys (storage.go), and Commit.
use atree.Prelude.{
  ◌≡◌, refl, ◌∙◌, true, false, inl, inr, Option, none, some, List, [], ◌∷◌, arith, Bool-cases,
}
use atree.Ids.{SlabId, SlabId_eq, SlabId_eq_iff}
use atree.Errors.{Result, ok, err, panic}
use atree.Action.{continue}
use atree.GoMap
use atree.Storage.Base.{BaseStorage, Codec, IsLawfulBase, HasData}
use atree.Storage.Persistent.{PersistentSlabStorage, sorted_owned_delta_keys}
use atree.Storage.View.{view}
use atree.Storage.Keys.{
  member, IsDistinct, SlabId_eq_comm, member-keys-some, member-sorted_owned_delta_keys,
  sorted_owned_delta_keys-IsDistinct,
}
use atree.Storage.Commit.{commit_key, commit_keys, commit}
use atree.Storage.Commit.Step.{IsPersisted, IsCommitStep, commit_key-IsCommitStep}

-- Each ID of the list has an entry in `deltas`.
abbrev pub ArePending : {Slab B : Type 0} → List SlabId → PersistentSlabStorage Slab B → Type 0
ArePending {Slab} ids s =
    (j : SlabId)
    → member j ids ≡ true
    → (change : Option Slab) × (GoMap.lookup j s.deltas ≡ some change)

module _ {Slab B : Type 0} (codec : Codec Slab) (base : BaseStorage B)
    (lawful : IsLawfulBase base) where
  -- What committing the IDs of a list leaves, whether it ends well or stops at an error.
  pub record IsCommitRun (ids : List SlabId) (s : PersistentSlabStorage Slab B)
      (r : Result (Unit {0}) × PersistentSlabStorage Slab B) : Type 0 where
    pub same_view : (j : SlabId) → view codec base lawful r.1 j ≡ view codec base lawful s j
    pub other_deltas :
        (j : SlabId) → member j ids ≡ false → GoMap.lookup j r.1.deltas ≡ GoMap.lookup j s.deltas
    pub other_data :
        (j : SlabId)
        → member j ids ≡ false
        → lawful.read r.1.base_storage j ≡ lawful.read s.base_storage j
    pub settled :
        (j : SlabId) → r.0 ≡ ok tt → member j ids ≡ true → GoMap.lookup j r.1.deltas ≡ none
    pub written :
        (j : SlabId) (change : Option Slab)
        → HasData codec
        → r.0 ≡ ok tt
        → member j ids ≡ true
        → GoMap.lookup j s.deltas ≡ some change
        → IsPersisted codec change (lawful.read r.1.base_storage j)

  module _ (id : SlabId) (change : Option Slab) (ids : List SlabId)
      (s : PersistentSlabStorage Slab B) (pending : GoMap.lookup id s.deltas ≡ some change)
      (fresh : member id ids ≡ false) where
    -- A first round that succeeds, and a run from the state that it leaves.
    cons-IsCommitRun :
        (s' : PersistentSlabStorage Slab B) (r : Result (Unit {0}) × PersistentSlabStorage Slab B)
        → IsCommitStep codec base lawful id change s (ok tt, s')
        → IsCommitRun ids s' r
        → IsCommitRun (id ∷ ids) s r
    unfolding member
    cons-IsCommitRun s' r step run = record {
      same_view = λ j. run.same_view j ∙ step.same_view j;
      other_deltas = λ j h.
          run.other_deltas j (ground (arith, h))
          ∙ step.other_deltas j (SlabId_eq_comm id j ∙ ground (arith, h));
      other_data = λ j h.
          run.other_data j (ground (arith, h))
          ∙ step.other_data j (SlabId_eq_comm id j ∙ ground (arith, h));
      settled = λ j o h. elim (Bool-cases (member j ids)) [
        | inl m ↦ run.settled j o m
        | inr m ↦ run.other_deltas j m ∙ ground (arith, step.settled refl, SlabId_eq_iff j id, h, m)
      ];
      written = λ j c filled o h p. elim (Bool-cases (SlabId_eq j id)) [
        | inl e ↦
            let same = (SlabId_eq_iff j id).0 e in
            let c_same : c ≡ change = ground (arith, same, p, pending) in
            rw (same, run.other_data id fresh, c_same) (step.written filled refl)
        | inr e ↦
            run.written j c filled o (ground (arith, h))
              (step.other_deltas j (SlabId_eq_comm id j ∙ e) ∙ p)
      ];
    }

    stopped-IsCommitRun :
        (r : Result (Unit {0})) (s' : PersistentSlabStorage Slab B)
        → IsCommitStep codec base lawful id change s (r, s')
        → (r ≡ ok tt → ⊥)
        → IsCommitRun (id ∷ ids) s (r, s')
    unfolding member
    stopped-IsCommitRun r s' step no_success = record {
      same_view = step.same_view;
      other_deltas = λ j h. step.other_deltas j (SlabId_eq_comm id j ∙ ground (arith, h));
      other_data = λ j h. step.other_data j (SlabId_eq_comm id j ∙ ground (arith, h));
      settled = λ j h. absurd (no_success h);
      written = λ j c filled h. absurd (no_success h);
    }

    step-IsCommitRun :
        (r : Result (Unit {0}) × PersistentSlabStorage Slab B)
        → IsCommitStep codec base lawful id change s r
        → (r.0 ≡ ok tt → IsCommitRun ids r.1 (commit_keys codec base ids r.1))
        → IsCommitRun (id ∷ ids) s (continue r.0 (λ _. commit_keys codec base ids) r.1)
    step-IsCommitRun (ok _, s') step rest = cons-IsCommitRun s' _ step (rest refl)
    step-IsCommitRun (err e, s') step rest = stopped-IsCommitRun (err e) s' step (λ h. ground arith)
    step-IsCommitRun (panic, s') step rest = stopped-IsCommitRun panic s' step (λ h. ground arith)

  pub commit_keys-IsCommitRun :
      (ids : List SlabId) (s : PersistentSlabStorage Slab B)
      → IsDistinct ids
      → ArePending ids s
      → IsCommitRun ids s (commit_keys codec base ids s)
  unfolding commit_keys member
  commit_keys-IsCommitRun [] s d p = record {
    same_view = λ j. refl;
    other_deltas = λ j h. refl;
    other_data = λ j h. refl;
    settled = λ j o h. absurd (ground arith);
    written = λ j c filled o h. absurd (ground arith);
  }
  commit_keys-IsCommitRun (id ∷ ids) s d p =
      let (change, pending) = p id (ground (arith, SlabId_eq_iff id id)) in
      let step = commit_key-IsCommitStep codec base lawful id change s pending in
      step-IsCommitRun id change ids s pending d.0 (commit_key codec base id s) step (λ _.
        commit_keys-IsCommitRun ids (commit_key codec base id s).1 d.1 (λ j m.
          elim (Bool-cases (SlabId_eq j id)) [
            | inl e ↦ absurd (ground (arith, (SlabId_eq_iff j id).0 e, m, d.0))
            | inr e ↦
                let (c, q) = p j (ground (arith, m)) in
                (c, step.other_deltas j (SlabId_eq_comm id j ∙ e) ∙ q)
          ]))

  pub sorted_owned_delta_keys-ArePending :
      (s : PersistentSlabStorage Slab B) → ArePending (sorted_owned_delta_keys s) s
  sorted_owned_delta_keys-ArePending s j m =
      member-keys-some j s.deltas (ground (arith, member-sorted_owned_delta_keys s j, m))

  pub commit-IsCommitRun :
      (s : PersistentSlabStorage Slab B)
      → IsDistinct (GoMap.keys s.deltas)
      → IsCommitRun (sorted_owned_delta_keys s) s (commit codec base s)
  unfolding commit
  commit-IsCommitRun s d =
      commit_keys-IsCommitRun (sorted_owned_delta_keys s) s (sorted_owned_delta_keys-IsDistinct s d)
        (sorted_owned_delta_keys-ArePending s)
