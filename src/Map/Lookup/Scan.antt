-- ===== src/Map/Lookup/Scan.antt =====
-- The binary search of hkeyElements and the walk through their lists agree, and what the updates of
-- map_elements_hashkey.go do to it.
use atree.Prelude.{
  ℕ, zero, suc, ◌≤◌, ◌≡◌, ◌∙◌, refl, true, false, Option, none, some, List, [], ◌∷◌, ◌==◌, length,
  get_elem?, get_elem?-lt, set, insert_at, arith,
}
use atree.Errors.{ok}
use atree.Map.Hkey.{at_equal, at_new, find}
use atree.Map.Hkey.Shape.{AreAbove, AreSorted}
use atree.Map.Hkey.Search.{IsPlace, Found, above_at, find_lem}
use atree.Map.Hkey.Update.{get_elem?-inside}
use atree.Map.Lookup.{scan}

module _ {T : Type 0} where
  scan-above : (k : ℕ) (hs : List ℕ) (ts : List T) → AreAbove k hs → scan hs ts k ≡ none
  unfolding scan
  scan-above k [] ts a = refl
  scan-above k (h ∷ hs) [] a = refl
  scan-above k (h ∷ hs) (t ∷ ts) a =
      let other : (h == k) ≡ false = ground (arith, a.0) in rw other (scan-above k hs ts a.1)

  -- A digest is found at the index that holds it.
  pub scan-at :
      (hs : List ℕ) (ts : List T) (k i : ℕ)
      → AreSorted hs
      → length hs ≡ length ts
      → IsPlace hs k (at_equal i)
      → scan hs ts k ≡ get_elem? ts i
  unfolding scan
  scan-at [] ts k i s l p = absurd cc
  scan-at (h ∷ hs) [] k i s l p = absurd (omega arith)
  scan-at (h ∷ hs) (t ∷ ts) k zero s l p =
      let same : (h == k) ≡ true = ground (arith, p) in rw same refl
  scan-at (h ∷ hs) (t ∷ ts) k (suc i) s l p =
      let other : (h == k) ≡ false = ground (arith, above_at h i k hs s.0 p) in
      rw other (scan-at hs ts k i s.1 (omega arith) p)

  -- A digest that has a place of its own is not found.
  pub scan-new :
      (hs : List ℕ) (ts : List T) (k i : ℕ) → IsPlace hs k (at_new i) → scan hs ts k ≡ none
  unfolding scan
  scan-new hs ts k zero p = scan-above k hs ts p.2
  scan-new [] ts k (suc i) p = refl
  scan-new (h ∷ hs) [] k (suc i) p = refl
  scan-new (h ∷ hs) (t ∷ ts) k (suc i) p =
      let other : (h == k) ≡ false = ground (arith, p.1.0) in
      rw other (scan-new hs ts k i (omega (arith, p.0), p.1.1, p.2))

  -- What the search of getElement returns, and what the walk finds.
  pub data Scans (hs : List ℕ) (ts : List T) (k : ℕ) : Type 0 where
    missing : (less : ℕ) → find hs k ≡ ok (none, less) → scan hs ts k ≡ none → Scans hs ts k
    present :
        (less i : ℕ) (t : T)
        → find hs k ≡ ok (some i, less)
        → get_elem? ts i ≡ some t
        → scan hs ts k ≡ some t
        → Scans hs ts k

  pub find-Scans :
      (hs : List ℕ) (ts : List T) (k : ℕ) → AreSorted hs → length hs ≡ length ts → Scans hs ts k
  find-Scans hs ts k s l = go (find_lem hs k s)
    where
      go : (r : Option ℕ × ℕ) × (find hs k ≡ ok r) × Found hs k r → Scans hs ts k
      go ((none, less), e, (i, p, q)) = missing less e (scan-new hs ts k i p)
      go ((some i, less), e, p) =
          let inside = get_elem?-inside hs i k p in
          let (t, at_i) = get_elem?-lt ts i (omega (arith, inside, l)) in
          present less i t e at_i (scan-at hs ts k i s l p ∙ at_i)

  -- A new element at its place is found under its digest, and the others as before.
  pub scan-insert_at :
      (hs : List ℕ) (ts : List T) (k i : ℕ) (t : T)
      → length hs ≡ length ts
      → IsPlace hs k (at_new i)
      → scan (insert_at hs i k) (insert_at ts i t) k ≡ some t
  unfolding scan
  scan-insert_at hs ts k zero t l p = let same : (k == k) ≡ true = ground arith in rw same refl
  scan-insert_at [] ts k (suc i) t l p = absurd (omega (arith, p.0))
  scan-insert_at (h ∷ hs) [] k (suc i) t l p = absurd (omega arith)
  scan-insert_at (h ∷ hs) (u ∷ ts) k (suc i) t l p =
      let other : (h == k) ≡ false = ground (arith, p.1.0) in
      rw other (scan-insert_at hs ts k i t (omega arith) (omega (arith, p.0), p.1.1, p.2))

  pub scan-insert_at-other :
      (hs : List ℕ) (ts : List T) (k i j : ℕ) (t : T)
      → length hs ≡ length ts
      → i ≤ length hs
      → (k == j) ≡ false
      → scan (insert_at hs i k) (insert_at ts i t) j ≡ scan hs ts j
  unfolding scan
  scan-insert_at-other hs ts k zero j t l b n = rw n refl
  scan-insert_at-other [] ts k (suc i) j t l b n = absurd (omega arith)
  scan-insert_at-other (h ∷ hs) [] k (suc i) j t l b n = absurd (omega arith)
  scan-insert_at-other (h ∷ hs) (u ∷ ts) k (suc i) j t l b n =
      rw (scan-insert_at-other hs ts k i j t (omega arith) (omega arith) n) refl

  -- An element in the place of the one of a digest is found instead, and the others as before.
  pub scan-set :
      (hs : List ℕ) (ts : List T) (k i : ℕ) (t : T)
      → AreSorted hs
      → length hs ≡ length ts
      → IsPlace hs k (at_equal i)
      → scan hs (set ts i t) k ≡ some t
  unfolding scan
  scan-set [] ts k i t s l p = absurd cc
  scan-set (h ∷ hs) [] k i t s l p = absurd (omega arith)
  scan-set (h ∷ hs) (u ∷ ts) k zero t s l p =
      let same : (h == k) ≡ true = ground (arith, p) in rw same refl
  scan-set (h ∷ hs) (u ∷ ts) k (suc i) t s l p =
      let other : (h == k) ≡ false = ground (arith, above_at h i k hs s.0 p) in
      rw other (scan-set hs ts k i t s.1 (omega arith) p)

  pub scan-set-other :
      (hs : List ℕ) (ts : List T) (k i j : ℕ) (t : T)
      → IsPlace hs k (at_equal i)
      → (k == j) ≡ false
      → scan hs (set ts i t) j ≡ scan hs ts j
  unfolding scan
  scan-set-other [] ts k i j t p n = absurd cc
  scan-set-other (h ∷ hs) [] k i j t p n = refl
  scan-set-other (h ∷ hs) (u ∷ ts) k zero j t p n =
      let same : h ≡ k = ground (arith, p) in rw (same, n) refl
  scan-set-other (h ∷ hs) (u ∷ ts) k (suc i) j t p n = rw (scan-set-other hs ts k i j t p n) refl
