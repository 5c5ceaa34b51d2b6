-- ===== src/Storage/Keys.antt =====
-- The keys that a commit works through (storage.go, sortedOwnedDeltaKeys): which they are, that no
-- key comes twice, and their order.
use atree.Prelude.{
  ◌≡◌, inl, inr, refl, ◌∙◌, Bool, true, false, none, some, List, [], ◌∷◌, ◌++◌, arith,
  if◌then◌else◌, Bool-cases,
}
use atree.Ids.{SlabId, SlabId_eq, SlabId_eq_iff}
use atree.SlabId.{has_temp_address}
use atree.GoMap
use atree.GoMap.{GoMap, keys, insert, delete}
use atree.Storage.Persistent.{
  PersistentSlabStorage, less, insert_sorted, sort, owned, sorted_owned_delta_keys,
}

unfoldable pub member : SlabId → List SlabId → Bool
member a [] = false
member a (b ∷ l) = if SlabId_eq a b then true else member a l

-- No ID twice.
abbrev pub IsDistinct : List SlabId → Type 0
IsDistinct [] = Unit
IsDistinct (a ∷ l) = (member a l ≡ false) × IsDistinct l

-- `member a (b ∷ l)` is `either_member a b (member a l)`.
abbrev pub either_member : SlabId → SlabId → Bool → Bool
either_member a b rest = if SlabId_eq a b then true else rest

pub SlabId_eq_refl : (a : SlabId) → SlabId_eq a a ≡ true
SlabId_eq_refl a = (SlabId_eq_iff a a).1 refl

pub SlabId_eq_comm : (a b : SlabId) → SlabId_eq a b ≡ SlabId_eq b a
SlabId_eq_comm a b = ground (arith, SlabId_eq_iff a b, SlabId_eq_iff b a)

pub member-append :
    (j : SlabId) (l k : List SlabId) → member j (l ++ k) ≡ (if member j l then true else member j k)
unfolding member
member-append j [] k = refl
member-append j (a ∷ l) k = ground (arith, member-append j l k)

pub member-insert_sorted :
    (j a : SlabId) (l : List SlabId) → member j (insert_sorted a l) ≡ either_member j a (member j l)
unfolding member insert_sorted
member-insert_sorted j a [] = refl
member-insert_sorted j a (b ∷ l) = ground (arith, member-insert_sorted j a l)

pub member-sort : (j : SlabId) (l : List SlabId) → member j (sort l) ≡ member j l
unfolding member sort
member-sort j [] = refl
member-sort j (a ∷ l) = ground (arith, member-insert_sorted j a (sort l), member-sort j l)

pub member-owned :
    (j : SlabId) (l : List SlabId)
    → member j (owned l) ≡ (if has_temp_address j then false else member j l)
unfolding member owned
member-owned j [] = ground arith
member-owned j (a ∷ l) = ground (arith, member-owned j l, SlabId_eq_iff j a)

insert_sorted-IsDistinct :
    (a : SlabId) (l : List SlabId)
    → member a l ≡ false
    → IsDistinct l
    → IsDistinct (insert_sorted a l)
unfolding insert_sorted member
insert_sorted-IsDistinct a [] n h = (refl, tt)
insert_sorted-IsDistinct a (b ∷ l) n h = elim (Bool-cases (less b a)) [
  | inl e ↦ rw e (
    ground (arith, member-insert_sorted b a l, SlabId_eq_comm a b, h.0),
    insert_sorted-IsDistinct a l (ground arith) h.1,
  )
  | inr e ↦ rw e (n, h)
]

sort-IsDistinct : (l : List SlabId) → IsDistinct l → IsDistinct (sort l)
unfolding sort
sort-IsDistinct [] h = tt
sort-IsDistinct (a ∷ l) h =
    insert_sorted-IsDistinct a (sort l) (member-sort a l ∙ h.0) (sort-IsDistinct l h.1)

owned-IsDistinct : (l : List SlabId) → IsDistinct l → IsDistinct (owned l)
unfolding owned
owned-IsDistinct [] h = tt
owned-IsDistinct (a ∷ l) h = elim (Bool-cases (has_temp_address a)) [
  | inl e ↦ rw e (owned-IsDistinct l h.1)
  | inr e ↦ rw e (ground (arith, member-owned a l, h.0), owned-IsDistinct l h.1)
]

module _ {ℓ} {V : Type ℓ} where
  pub member-keys-none :
      (j : SlabId) (m : GoMap V) → member j (keys m) ≡ false → GoMap.lookup j m ≡ none
  unfolding member keys GoMap.lookup
  member-keys-none j [] h = refl
  member-keys-none j ((a, v) ∷ m) h = ground (arith, member-keys-none j m)

  pub lookup-none-member :
      (j : SlabId) (m : GoMap V) → GoMap.lookup j m ≡ none → member j (keys m) ≡ false
  unfolding member keys GoMap.lookup
  lookup-none-member j [] h = refl
  lookup-none-member j ((a, v) ∷ m) h = ground (arith, lookup-none-member j m)

  pub member-keys-some :
      (j : SlabId) (m : GoMap V) → member j (keys m) ≡ true → (v : V) × (GoMap.lookup j m ≡ some v)
  unfolding member keys GoMap.lookup
  member-keys-some j [] h = absurd (ground arith)
  member-keys-some j ((a, v) ∷ m) h = elim (Bool-cases (SlabId_eq j a)) [
    | inl e ↦ (v, rw e)
    | inr e ↦ let (w, f) = member-keys-some j m (ground arith) in (w, rw e f)
  ]

  member-keys-insert :
      (k j : SlabId) (v : V) (m : GoMap V)
      → member j (keys (insert k v m)) ≡ either_member j k (member j (keys m))
  unfolding member keys insert
  member-keys-insert k j v [] = refl
  member-keys-insert k j v ((i, w) ∷ m) =
      ground (arith, member-keys-insert k j v m, SlabId_eq_iff k i)

  member-keys-delete :
      (k j : SlabId) (m : GoMap V)
      → member j (keys (delete k m)) ≡ (if SlabId_eq j k then false else member j (keys m))
  unfolding member keys delete
  member-keys-delete k j [] = ground arith
  member-keys-delete k j ((i, w) ∷ m) =
      ground (arith, member-keys-delete k j m, SlabId_eq_iff k i, SlabId_eq_iff j k)

  -- The keys of a Go map stay distinct under writes and deletions.
  pub insert-IsDistinct :
      (k : SlabId) (v : V) (m : GoMap V) → IsDistinct (keys m) → IsDistinct (keys (insert k v m))
  unfolding member keys insert
  insert-IsDistinct k v [] h = (refl, tt)
  insert-IsDistinct k v ((i, w) ∷ m) h = elim (Bool-cases (SlabId_eq k i)) [
    | inl e ↦ rw e h
    | inr e ↦ rw e (
      ground (arith, member-keys-insert k i v m, SlabId_eq_comm k i, h.0),
      insert-IsDistinct k v m h.1,
    )
  ]

  pub delete-IsDistinct :
      (k : SlabId) (m : GoMap V) → IsDistinct (keys m) → IsDistinct (keys (delete k m))
  unfolding member keys delete
  delete-IsDistinct k [] h = tt
  delete-IsDistinct k ((i, w) ∷ m) h = elim (Bool-cases (SlabId_eq k i)) [
    | inl e ↦ rw e (delete-IsDistinct k m h.1)
    | inr e ↦ rw e (ground (arith, member-keys-delete k i m, h.0), delete-IsDistinct k m h.1)
  ]

module _ {Slab B : Type 0} (s : PersistentSlabStorage Slab B) where
  pub member-sorted_owned_delta_keys :
      (j : SlabId)
      → member j (sorted_owned_delta_keys s)
        ≡ (if has_temp_address j then false else member j (keys s.deltas))
  unfolding sorted_owned_delta_keys
  member-sorted_owned_delta_keys j =
      member-sort j (owned (keys s.deltas)) ∙ member-owned j (keys s.deltas)

  pub sorted_owned_delta_keys-IsDistinct :
      IsDistinct (keys s.deltas) → IsDistinct (sorted_owned_delta_keys s)
  unfolding sorted_owned_delta_keys
  sorted_owned_delta_keys-IsDistinct h = sort-IsDistinct _ (owned-IsDistinct _ h)
