-- ===== src/Map/Lookup/Singles.antt =====
-- The linear search of singleElements (map_elements_nokey.go) against the walk through the list.
use atree.Prelude.{ℕ, suc, ◌≡◌, refl, Option, none, some, List, [], ◌∷◌, Bool-cases, inl, inr}
use atree.Errors.{Result, ok, err, wrap_result, new_key_not_found_error}
use atree.Map.Slab.{SingleElement}
use atree.Map.Client.{Client, IsLawfulClient}
use atree.Map.Single.{single_get, find_single}
use atree.Map.Lookup.{look_single, look_singles, index_single}

abbrev pub found : {A : Type 0} → Option A → Result A
found none = err new_key_not_found_error
found (some a) = ok a

module _ {E S V : Type 0} (client : Client E S V) (law : IsLawfulClient client) where
  pub single_get-look_single :
      (e : SingleElement E) (key : V) (s : S)
      → (single_get client e key s).0 ≡ found (look_single client law key e)
  unfolding single_get look_single wrap_result
  single_get-look_single e key s =
      rw (law.comparator-ok key e.key s) (elim (Bool-cases (law.equal key (law.value_of e.key))) [
        | inl same ↦ rw same refl
        | inr other ↦ rw other refl
      ])

  pub find_single-index_single :
      (key : V) (i : ℕ) (es : List (SingleElement E)) (s : S)
      → (find_single client key i es s).0 ≡ ok (index_single client law key i es)
  unfolding find_single index_single wrap_result
  find_single-index_single key i [] s = refl
  find_single-index_single key i (e ∷ es) s =
      rw (law.comparator-ok key e.key s) (elim (Bool-cases (law.equal key (law.value_of e.key))) [
        | inl same ↦ rw same refl
        | inr other ↦ rw other (find_single-index_single key (suc i) es _)
      ])

  abbrev pub entry_of : Option (ℕ × SingleElement E) → Option (E × E)
  entry_of none = none
  entry_of (some (i, e)) = some (e.key, e.value)

  pub look_singles-index_single :
      (key : V) (i : ℕ) (es : List (SingleElement E))
      → look_singles client law key es ≡ entry_of (index_single client law key i es)
  unfolding look_singles index_single
  look_singles-index_single key i [] = refl
  look_singles-index_single key i (e ∷ es) =
      elim (Bool-cases (law.equal key (law.value_of e.key))) [
        | inl same ↦ rw same refl
        | inr other ↦ rw other (look_singles-index_single key (suc i) es)
      ]
