-- ===== src/GoMap.antt =====
-- Go's `map[SlabID]V`. The order of the list stands for the order in which a `range` visits the
-- entries, which Go leaves open: a theorem over all lists covers every order.
use atree.Prelude.{◌≡◌, Option, none, some, List, [], ◌∷◌, arith, if◌then◌else◌}
use atree.Ids.{SlabId, SlabId_eq, SlabId_eq_iff}

abbrev pub GoMap {ℓ} : Type ℓ → Type ℓ
GoMap V = List (SlabId × V)

module _ {ℓ} {V : Type ℓ} where
  -- `v, ok := m[k]`
  unfoldable pub lookup : SlabId → GoMap V → Option V
  lookup k [] = none
  lookup k ((j, v) ∷ m) = if SlabId_eq k j then some v else lookup k m

  -- `m[k] = v`
  unfoldable pub insert : SlabId → V → GoMap V → GoMap V
  insert k v [] = (k, v) ∷ []
  insert k v ((j, w) ∷ m) = if SlabId_eq k j then (j, v) ∷ m else (j, w) ∷ insert k v m

  -- `delete(m, k)`
  unfoldable pub delete : SlabId → GoMap V → GoMap V
  delete k [] = []
  delete k ((j, v) ∷ m) = let rest = delete k m in if SlabId_eq k j then rest else (j, v) ∷ rest

  unfoldable pub keys : GoMap V → List SlabId
  keys [] = []
  keys ((j, v) ∷ m) = j ∷ keys m

  pub lookup-insert :
      (k j : SlabId) (v : V) (m : GoMap V)
      → lookup j (insert k v m) ≡ (if SlabId_eq k j then some v else lookup j m)
  unfolding lookup insert
  lookup-insert k j v [] = ground (arith, SlabId_eq_iff k j, SlabId_eq_iff j k)
  lookup-insert k j v ((i, w) ∷ m) =
      ground (arith, SlabId_eq_iff k i, SlabId_eq_iff j i, SlabId_eq_iff k j, lookup-insert k j v m)

  pub lookup-delete :
      (k j : SlabId) (m : GoMap V)
      → lookup j (delete k m) ≡ (if SlabId_eq k j then none else lookup j m)
  unfolding lookup delete
  lookup-delete k j [] = ground arith
  lookup-delete k j ((i, w) ∷ m) =
      ground (arith, SlabId_eq_iff k i, SlabId_eq_iff j i, SlabId_eq_iff k j, lookup-delete k j m)

pub ruleset map_laws = (lookup-insert, lookup-delete)
