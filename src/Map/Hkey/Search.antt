-- ===== src/Map/Hkey/Search.antt =====
-- The binary search of hkeyElements (map_elements_hashkey.go) finds a digest that is there, and the
-- place for one that is not.
use atree.Prelude.{
  ℕ, zero, suc, ◌+◌, ◌/◌, ◌≤◌, ◌<◌, ◌≡◌, ◌⊎◌, inl, inr, refl, Option, none, some, List, [], ◌∷◌,
  ◌-◌, ltb, length, get_elem?, get_elem?-lt, take, drop, arith, Bool-cases, ap,
}
use atree.Errors.{ok}
use atree.Map.Hkey.{Place, at_equal, at_new, after_search, search, find, place_in}
use atree.Map.Hkey.Shape.{AreBelow, AreAbove, AreSorted, AreAbove-weaken}

pub above_at : (x i k : ℕ) (hs : List ℕ) → AreAbove x hs → get_elem? hs i ≡ some k → x < k
above_at x i k [] a e = absurd cc
above_at x zero k (h ∷ hs) a e = ground (arith, e, a.0)
above_at x (suc i) k (h ∷ hs) a e = above_at x i k hs a.1 e

drop-AreAbove :
    (x i k : ℕ) (hs : List ℕ)
    → AreSorted hs
    → get_elem? hs i ≡ some k
    → x < k
    → AreAbove x (drop i hs)
drop-AreAbove x i k [] s e l = absurd cc
drop-AreAbove x zero k (h ∷ hs) s e l =
    let same : h ≡ k = ground (arith, e) in (omega arith, AreAbove-weaken h x hs (omega arith) s.0)
drop-AreAbove x (suc i) k (h ∷ hs) s e l = drop-AreAbove x i k hs s.1 e l

take-AreBelow :
    (x i k : ℕ) (hs : List ℕ)
    → AreSorted hs
    → get_elem? hs i ≡ some k
    → k < x
    → AreBelow x (take (suc i) hs)
take-AreBelow x i k [] s e l = absurd cc
take-AreBelow x zero k (h ∷ hs) s e l = let same : h ≡ k = ground (arith, e) in (omega arith, tt)
take-AreBelow x (suc i) k (h ∷ hs) s e l =
    (omega (arith, above_at h i k hs s.0 e), take-AreBelow x i k hs s.1 e l)

-- The place of a digest: an index that holds it, or one between the smaller and the larger digests.
abbrev pub IsPlace : List ℕ → ℕ → Place → Type 0
IsPlace hs hkey (at_equal i) = get_elem? hs i ≡ some hkey
IsPlace hs hkey (at_new i) = (i ≤ length hs) × AreBelow hkey (take i hs) × AreAbove hkey (drop i hs)

-- What the search returns: the place, except that `lessThanIndex` is not set where every digest is
-- smaller.
abbrev pub Found : List ℕ → ℕ → Option ℕ × ℕ → Type 0
Found hs hkey (some i, less) = IsPlace hs hkey (at_equal i)
Found hs hkey (none, less) = (i : ℕ) × IsPlace hs hkey (at_new i) × ((less ≡ i) ⊎ (i ≡ length hs))

module _ (hs : List ℕ) (hkey : ℕ) (sorted : AreSorted hs) where
  search_lem :
      (fuel less i j : ℕ)
      → j - i < fuel
      → i ≤ j
      → j ≤ length hs
      → AreBelow hkey (take i hs)
      → AreAbove hkey (drop j hs)
      → (less ≡ j) ⊎ (j ≡ length hs)
      → (r : Option ℕ × ℕ) × (search hs hkey fuel less i j ≡ ok r) × Found hs hkey r
  unfolding search
  search_lem zero less i j f o n b a l = absurd (omega arith)
  search_lem (suc fuel) less i j f o n b a l = elim (Bool-cases (ltb i j)) [
    | inr done ↦
        let same : i ≡ j = ground (arith, done) in
        rw done ((none, less), refl, (j, (n, rw same at b, a), l))
    | inl more ↦
        let h = (i + j) / 2 in
        let inside : (i ≤ h) × (h < j) = ground (arith, more) in
        let (k, at_h) = get_elem?-lt hs h (omega arith) in
        elim (Bool-cases (ltb hkey k)) [
          | inl below ↦
              rw (more, at_h, below)
                (search_lem fuel h i h (omega arith) inside.0 (omega arith) b
                  (drop-AreAbove hkey h k hs sorted at_h (ground (arith, below))) (inl refl))
          | inr not_below ↦ elim (Bool-cases (ltb k hkey)) [
            | inl above ↦
                let next : h + 1 ≡ suc h = omega arith in
                rw (more, at_h, not_below, above)
                  (search_lem fuel less (h + 1) j (omega arith) (omega arith) n
                    (rw next (take-AreBelow hkey h k hs sorted at_h (ground (arith, above)))) a l)
            | inr equal ↦
                let same : k ≡ hkey = ground (arith, not_below, equal) in
                rw (more, at_h, not_below, equal) ((some h, less), refl, rw same at at_h)
          ]
        ]
  ]

  -- The search of getElement and Remove returns: the index of the digest, or none where the digest
  -- is not there.
  pub find_lem : (r : Option ℕ × ℕ) × (find hs hkey ≡ ok r) × Found hs hkey r
  unfolding find
  find_lem =
      search_lem (suc (length hs)) 0 0 (length hs) (omega arith) (omega arith) (omega arith) tt
        (drop_all hs) (inr refl)
    where
      drop_all : (xs : List ℕ) → AreAbove hkey (drop (length xs) xs)
      drop_all [] = tt
      drop_all (x ∷ xs) = drop_all xs

take_all : (xs : List ℕ) → take (length xs) xs ≡ xs
take_all [] = refl
take_all (x ∷ xs) = ap (◌∷◌ x) (take_all xs)

drop_all : (xs : List ℕ) → drop (length xs) xs ≡ []
drop_all [] = refl
drop_all (x ∷ xs) = drop_all xs

below_at : (x i k : ℕ) (hs : List ℕ) → AreBelow x hs → get_elem? hs i ≡ some k → k < x
below_at x i k [] b e = absurd cc
below_at x zero k (h ∷ hs) b e = ground (arith, e, b.0)
below_at x (suc i) k (h ∷ hs) b e = below_at x i k hs b.1 e

Found-IsPlace :
    (hs : List ℕ) (hkey last : ℕ) (r : Option ℕ × ℕ)
    → get_elem? hs (length hs - 1) ≡ some last
    → hkey ≤ last
    → Found hs hkey r
    → IsPlace hs hkey (after_search r)
Found-IsPlace hs hkey last (some i, less) e l f = f
Found-IsPlace hs hkey last (none, less) e l (i, p, inl h) = rw h p
Found-IsPlace hs hkey last (none, less) e l (i, p, inr h) =
    let below : AreBelow hkey hs = rw (h, take_all hs) at p.1 in
    absurd (omega (arith, below_at hkey (length hs - 1) last hs below e))

-- Where the digests are sorted, Set finds the place of a digest: no index is out of range, the
-- search ends, and it gives the index that holds the digest, or the one between the smaller and
-- the larger digests where none holds it.
pub place_in_lem :
    (hs : List ℕ) (hkey : ℕ)
    → AreSorted hs
    → (p : Place) × (place_in hs hkey ≡ ok p) × IsPlace hs hkey p
unfolding place_in
place_in_lem [] hkey s = (at_new 0, refl, (omega arith, tt, tt))
place_in_lem (first ∷ rest) hkey s =
    let hs = first ∷ rest in
    let (last, at_last) = get_elem?-lt hs (length rest) (omega arith) in
    let same : length hs - 1 ≡ length rest = omega arith in
    elim (Bool-cases (ltb hkey first)) [
      | inl before ↦
          let less : hkey < first = ground (arith, before) in
          rw before (
            at_new 0,
            refl,
            (omega arith, tt, (less, AreAbove-weaken first hkey rest (omega arith) s.0)),
          )
      | inr not_before ↦ elim (Bool-cases (ltb last hkey)) [
        | inl after ↦
            rw (not_before, same, at_last, after)
              (
                at_new (length hs),
                refl,
                (
                  omega arith,
                  take-AreBelow hkey (length rest) last hs s at_last (ground (arith, after)),
                  rw (drop_all rest) tt,
                ),
              )
        | inr not_after ↦
            let (r, e, found) = find_lem hs hkey s in
            rw (not_before, same, at_last, not_after, e)
              (
                after_search r,
                refl,
                Found-IsPlace hs hkey last r (rw same at_last) (ground (arith, not_after)) found,
              )
      ]
    ]
