-- ===== src/Array/Root/Index.antt =====
-- The positions of an array's mutable elements (array.go, incrementIndexFrom and
-- decrementIndexFrom).
use atree.Prelude.{
  ℕ, ◌+◌, ◌-◌, ◌<◌, ◌≡◌, refl, false, List, [], ◌∷◌, ltb, leb, if◌then◌else◌, add64, sub64,
  add64_lem, sub64_lem, u64_mod, arith, Bool-cases, inl, inr,
}
use atree.SlabId.{ValueId}
use atree.Errors.{ok}
use atree.Array.Root.{ValueId_eq, put_index, increment_entries, decrement_entries}

-- Every position is below `n`.
abbrev pub AreBelow : ℕ → List (ValueId × ℕ) → Type 0
AreBelow n [] = Unit
AreBelow n ((id, i) ∷ entries) = (i < n) × AreBelow n entries

-- The positions at or behind an inserted element move up, and those behind a removed one move down.
abbrev pub moved_up : ℕ → List (ValueId × ℕ) → List (ValueId × ℕ)
moved_up index [] = []
moved_up index ((id, i) ∷ entries) =
    let rest = moved_up index entries in (id, (if leb index i then i + 1 else i)) ∷ rest

abbrev pub moved_down : ℕ → List (ValueId × ℕ) → List (ValueId × ℕ)
moved_down index [] = []
moved_down index ((id, i) ∷ entries) =
    let rest = moved_down index entries in (id, (if ltb index i then i - 1 else i)) ∷ rest

-- For positions below the number of elements before the insertion, incrementIndexFrom succeeds and
-- moves up by one exactly those at or behind the index.
pub increment_entries_lem :
    (n index : ℕ) (entries : List (ValueId × ℕ))
    → AreBelow n entries
    → n + 1 < u64_mod
    → increment_entries (n + 1) index entries ≡ ok (moved_up index entries)
unfolding increment_entries
increment_entries_lem n index [] h b = refl
increment_entries_lem n index ((id, i) ∷ entries) h b =
    let plus : add64 i 1 ≡ i + 1 = add64_lem _ _ (omega (arith, h.0)) in
    let inside : leb (n + 1) (i + 1) ≡ false = ground (arith, h.0) in
    elim (Bool-cases (leb index i)) [
      | inl behind ↦ rw (plus, behind, inside, increment_entries_lem n index entries h.1 b) refl
      | inr before ↦ rw (before, increment_entries_lem n index entries h.1 b) refl
    ]

-- decrementIndexFrom succeeds, and moves down by one exactly the positions behind the index, where
-- all positions are below a number that a uint64 holds.
pub decrement_entries_lem :
    (n index : ℕ) (entries : List (ValueId × ℕ))
    → AreBelow n entries
    → n < u64_mod
    → decrement_entries index entries ≡ ok (moved_down index entries)
unfolding decrement_entries
decrement_entries_lem n index [] h b = refl
decrement_entries_lem n index ((id, i) ∷ entries) h b = elim (Bool-cases (ltb index i)) [
  | inl behind ↦
      let minus : sub64 i 1 ≡ i - 1 = sub64_lem _ _ (ground (arith, behind)) (omega (arith, h.0)) in
      let some_i : leb i 0 ≡ false = ground (arith, behind) in
      rw (minus, behind, some_i, decrement_entries_lem n index entries h.1 b) refl
  | inr before ↦ rw (before, decrement_entries_lem n index entries h.1 b) refl
]

pub AreBelow-moved_up :
    (n index : ℕ) (entries : List (ValueId × ℕ))
    → AreBelow n entries
    → AreBelow (n + 1) (moved_up index entries)
AreBelow-moved_up n index [] h = tt
AreBelow-moved_up n index ((id, i) ∷ entries) h =
    (ground (arith, h.0), AreBelow-moved_up n index entries h.1)

pub AreBelow-put_index :
    (n i : ℕ) (id : ValueId) (entries : List (ValueId × ℕ))
    → AreBelow n entries
    → i < n
    → AreBelow n (put_index id i entries)
unfolding put_index
AreBelow-put_index n i id [] h l = (l, tt)
AreBelow-put_index n i id ((w, j) ∷ entries) h l = elim (Bool-cases (ValueId_eq id w)) [
  | inl same ↦ rw same (l, h.1)
  | inr other ↦ rw other (h.0, AreBelow-put_index n i id entries h.1 l)
]
