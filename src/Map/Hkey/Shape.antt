-- ===== src/Map/Hkey/Shape.antt =====
-- The invariant of hkeyElements (map_elements_hashkey.go): digests in order, one element for each,
-- and a size that counts them.
use atree.Prelude.{
  ℕ, zero, suc, ◌+◌, ◌^◌, ◌≤◌, ◌<◌, ◌≡◌, List, [], ◌∷◌, ◌++◌, length, take, drop, sum_by, arith,
  insert_at, remove_at,
}
use atree.Settings.{hkey_elements_prefix_size}
use atree.Map.Slab.{HkeyElements}
use atree.Map.Hkey.{sized}

-- All digests of a list lie below or above a bound.
abbrev pub AreBelow : ℕ → List ℕ → Type 0
AreBelow k [] = Unit
AreBelow k (h ∷ hs) = (h < k) × AreBelow k hs

abbrev pub AreAbove : ℕ → List ℕ → Type 0
AreAbove k [] = Unit
AreAbove k (h ∷ hs) = (k < h) × AreAbove k hs

-- Strictly ascending.
abbrev pub AreSorted : List ℕ → Type 0
AreSorted [] = Unit
AreSorted (h ∷ hs) = AreAbove h hs × AreSorted hs

pub AreAbove-weaken : (k l : ℕ) (hs : List ℕ) → l ≤ k → AreAbove k hs → AreAbove l hs
AreAbove-weaken k l [] h a = tt
AreAbove-weaken k l (x ∷ hs) h a = (omega arith, AreAbove-weaken k l hs h a.1)

pub AreAbove-append :
    (k : ℕ) (xs ys : List ℕ) → AreAbove k xs → AreAbove k ys → AreAbove k (xs ++ ys)
AreAbove-append k [] ys a b = b
AreAbove-append k (x ∷ xs) ys a b = (a.0, AreAbove-append k xs ys a.1 b)

pub AreAbove-take : (k n : ℕ) (xs : List ℕ) → AreAbove k xs → AreAbove k (take n xs)
AreAbove-take k zero xs a = tt
AreAbove-take k (suc n) [] a = tt
AreAbove-take k (suc n) (x ∷ xs) a = (a.0, AreAbove-take k n xs a.1)

pub AreAbove-drop : (k n : ℕ) (xs : List ℕ) → AreAbove k xs → AreAbove k (drop n xs)
AreAbove-drop k zero xs a = a
AreAbove-drop k (suc n) [] a = tt
AreAbove-drop k (suc n) (x ∷ xs) a = AreAbove-drop k n xs a.1

pub AreSorted-take : (n : ℕ) (xs : List ℕ) → AreSorted xs → AreSorted (take n xs)
AreSorted-take zero xs s = tt
AreSorted-take (suc n) [] s = tt
AreSorted-take (suc n) (x ∷ xs) s = (AreAbove-take x n xs s.0, AreSorted-take n xs s.1)

pub AreSorted-drop : (n : ℕ) (xs : List ℕ) → AreSorted xs → AreSorted (drop n xs)
AreSorted-drop zero xs s = s
AreSorted-drop (suc n) [] s = tt
AreSorted-drop (suc n) (x ∷ xs) s = AreSorted-drop n xs s.1

-- Between two sorted lists there is room for the digests that lie between them.
pub AreSorted-insert :
    (i k : ℕ) (xs : List ℕ)
    → AreSorted xs
    → AreBelow k (take i xs)
    → AreAbove k (drop i xs)
    → AreSorted (insert_at xs i k)
AreSorted-insert zero k xs s b a = (a, s)
AreSorted-insert (suc i) k [] s b a = (tt, tt)
AreSorted-insert (suc i) k (x ∷ xs) s b a = (
  AreAbove-append x (take i xs) (k ∷ drop i xs) (AreAbove-take x i xs s.0)
      (b.0, AreAbove-weaken k x (drop i xs) (omega (arith, b.0)) a),
  AreSorted-insert i k xs s.1 b.1 a,
)

pub AreSorted-remove : (i : ℕ) (xs : List ℕ) → AreSorted xs → AreSorted (remove_at xs i)
AreSorted-remove zero [] s = tt
AreSorted-remove zero (x ∷ xs) s = s.1
AreSorted-remove (suc i) [] s = tt
AreSorted-remove (suc i) (x ∷ xs) s = (
  AreAbove-append x (take i xs) (drop (suc i) xs) (AreAbove-take x i xs s.0)
      (AreAbove-drop x (suc i) xs s.0),
  AreSorted-remove i xs s.1,
)

module _ {T : Type 0} (elem_size : T → ℕ) where
  -- The bytes of the elements with their digests.
  abbrev pub sized_bytes : List T → ℕ
  sized_bytes = sum_by (sized elem_size)

  pub record IsHkeyElements (e : HkeyElements T) : Type 0 where
    pub sorted : AreSorted e.hkeys
    pub paired : length e.hkeys ≡ length e.elems
    pub counted : e.size ≡ hkey_elements_prefix_size + sized_bytes e.elems
    pub fits : e.size < 2 ^ 30
