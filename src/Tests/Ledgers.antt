-- ===== src/Tests/Ledgers.antt =====
-- A ledger held as a function, and a commit to it.
use atree.Prelude.{
  ℕ, ◌≡◌, refl, true, false, Bool, ◌&&◌, none, some, List, [], ◌∷◌, ◌==◌, ==_iff, Bool-cases, inl,
  inr, if◌then◌else◌, arith,
}
use mathlib.Core.Bool.{and-eq-true_iff}
use atree.Bytes.{Bytes8, Bytes8_eq, Bytes8_eq_iff}
use atree.Ids.{SlabId, SlabId_eq, SlabId_eq_iff}
use atree.SlabId.{has_temp_address}
use atree.Errors.{ok, err, wrap_result, new_slab_data_error}
use atree.GoMap
use atree.Storage.Base.{Codec, HasData, IsLawfulBase}
use atree.Storage.Ledger.{
  Ledger, IsLawfulLedger, LedgerBaseStorage, new_ledger_base_storage, store, write, ledger_base,
  ledger_base-IsLawfulBase,
}
use atree.Storage.Persistent.{
  PersistentSlabStorage, sorted_owned_delta_keys, owned, sort, insert_sorted, less, on_base,
  drop_cache, drop_deltas,
}
use atree.Storage.View.{view}
use atree.Storage.Keys.{member, IsDistinct}
use atree.Storage.Commit.{commit, commit_keys, commit_key, settle}
use atree.Storage.Commit.Correct.{commit_reopen, RoundTrips, IsCoherent}
use atree.Tests.Objects.{id_of}

list_eq : List ℕ → List ℕ → Bool
list_eq [] [] = true
list_eq (x ∷ xs) (y ∷ ys) = let rest = list_eq xs ys in x == y && rest
list_eq _ _ = false

list_eq_refl : (xs : List ℕ) → list_eq xs xs ≡ true
unfolding list_eq
list_eq_refl [] = refl
list_eq_refl (x ∷ xs) = let same : (x == x) ≡ true = ground arith in rw (same, list_eq_refl xs) refl

list_eq-eq : (xs ys : List ℕ) → list_eq xs ys ≡ true → xs ≡ ys
unfolding list_eq
list_eq-eq [] [] h = refl
list_eq-eq [] (y ∷ ys) h = absurd cc
list_eq-eq (x ∷ xs) [] h = absurd cc
list_eq-eq (x ∷ xs) (y ∷ ys) h =
    let (here, later) = (and-eq-true_iff _ _).0 h in
    let same : x ≡ y = (==_iff x y).0 here in rw (same, list_eq-eq xs ys later) refl

different :
    (owner owner' : Bytes8) (key key' : List ℕ)
    → (owner ≡ owner' → key ≡ key' → ⊥)
    → (Bytes8_eq owner owner' && list_eq key key') ≡ false
different owner owner' key key' n = elim (Bool-cases (Bytes8_eq owner owner' && list_eq key key')) [
  | inr other ↦ other
  | inl same ↦
      let (here, later) = (and-eq-true_iff _ _).0 same in
      absurd (n ((Bytes8_eq_iff owner owner').0 here) (list_eq-eq key key' later))
]

abbrev Values : Type 0
Values = Bytes8 → List ℕ → List ℕ

abbrev held : Ledger Values
held = record {
  get_value = λ owner key l. ((l owner key, none), l);
  set_value = λ owner key bytes l.
      (ok tt, λ o k. if Bytes8_eq owner o && list_eq key k then bytes else l o k);
  allocate_slab_index = λ address l. (ok (id_of 0 7).index, l);
}

held-IsLawfulLedger : IsLawfulLedger held
held-IsLawfulLedger = record {
  value = λ l owner key. (l owner key, none);
  get-value = λ owner key l. refl;
  value-set = λ owner key bytes l h.
      let same = (Bytes8_eq_iff owner owner).1 refl in rw (same, list_eq_refl key) refl;
  value-set_other = λ owner owner' key key' bytes l n. rw (different owner owner' key key' n) refl;
  value-get = λ owner owner' key key' l. refl;
  value-allocate = λ owner owner' index l. refl;
}

ledger_base-IsLawfulBase_example : IsLawfulBase (ledger_base held)
ledger_base-IsLawfulBase_example = ledger_base-IsLawfulBase held held-IsLawfulLedger

-- Slabs that know their ID, which is not part of their encoding.
abbrev page_codec : Codec (SlabId × ℕ)
page_codec = record {
  encode_slab = λ p. ok (p.1 ∷ []);
  decode_slab = λ id bytes. elim bytes [ [] ↦ err new_slab_data_error | n ∷ _ ↦ ok (id, n) ];
  byte_size = λ p. 1;
}

abbrev edited : PersistentSlabStorage (SlabId × ℕ) (LedgerBaseStorage Values)
edited = record {
  base_storage = new_ledger_base_storage (λ owner key. []);
  cache = [];
  deltas = (id_of 1 2, some (id_of 1 2, 5)) ∷ [];
  temp_slab_index = 0;
}

page-HasData : HasData page_codec
page-HasData slab bytes h = λ e. absurd cc

edited-RoundTrips :
    RoundTrips page_codec
      (ledger_base held)
      (ledger_base-IsLawfulBase held held-IsLawfulLedger)
      edited
unfolding GoMap.lookup
edited-RoundTrips id slab bytes pending h = ground (arith, SlabId_eq_iff id (id_of 1 2), pending, h)

edited-IsCoherent :
    IsCoherent page_codec
      (ledger_base held)
      (ledger_base-IsLawfulBase held held-IsLawfulLedger)
      edited
unfolding GoMap.lookup
edited-IsCoherent j slab h k = absurd (ground (arith, h, k))

edited-IsDistinct : IsDistinct (GoMap.keys edited.deltas)
unfolding GoMap.keys member
edited-IsDistinct = (refl, tt)

account_2 : has_temp_address (id_of 1 2) ≡ false
unfolding has_temp_address Bytes8_eq
account_2 = refl

edited-committed : (commit page_codec (ledger_base held) edited).0 ≡ ok tt
unfolding commit commit_keys commit_key settle on_base ledger_base store write wrap_result
    GoMap.lookup SlabId_eq sorted_owned_delta_keys owned sort insert_sorted less has_temp_address
    Bytes8_eq GoMap.keys
edited-committed = refl

commit_reopen_example :
    view page_codec
      (ledger_base held)
      (ledger_base-IsLawfulBase held held-IsLawfulLedger)
      (drop_cache (drop_deltas (commit page_codec (ledger_base held) edited).1))
      (id_of 1 2)
    ≡ view page_codec
        (ledger_base held)
        (ledger_base-IsLawfulBase held held-IsLawfulLedger)
        edited
        (id_of 1 2)
commit_reopen_example =
    commit_reopen page_codec (ledger_base held) (ledger_base-IsLawfulBase held held-IsLawfulLedger)
      edited edited-IsDistinct page-HasData edited-RoundTrips edited-IsCoherent edited-committed
      (id_of 1 2) account_2
