-- ===== src/Map/Hkey/Sorted.antt =====
-- The parts of sorted digests are sorted.
use atree.Prelude.{ℕ, List, [], ◌∷◌, ◌++◌}
use atree.Map.Hkey.Shape.{AreAbove, AreSorted}

AreAbove-left : (k : ℕ) (xs ys : List ℕ) → AreAbove k (xs ++ ys) → AreAbove k xs
AreAbove-left k [] ys a = tt
AreAbove-left k (x ∷ xs) ys a = (a.0, AreAbove-left k xs ys a.1)

pub AreSorted-left : (xs ys : List ℕ) → AreSorted (xs ++ ys) → AreSorted xs
AreSorted-left [] ys s = tt
AreSorted-left (x ∷ xs) ys s = (AreAbove-left x xs ys s.0, AreSorted-left xs ys s.1)

pub AreSorted-right : (xs ys : List ℕ) → AreSorted (xs ++ ys) → AreSorted ys
AreSorted-right [] ys s = s
AreSorted-right (x ∷ xs) ys s = AreSorted-right xs ys s.1
