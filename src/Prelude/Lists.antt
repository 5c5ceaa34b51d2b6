-- ===== src/Prelude/Lists.antt =====
-- Lists measured and indexed by native numbers, under the library's names.
use Prim.Native.Nat.{ℕ, zero, suc, ◌+◌, ◌-◌, ◌≤◌, ◌<◌}
use mathlib.Core.Path.{◌≡◌, refl, ap}
use mathlib.Core.List.{List, [], ◌∷◌, ◌++◌}
use mathlib.Core.Option.{Option, none, some}
use native.Mathlib.Omega.{arith}

module _ {ℓ} {A : Type ℓ} where
  abbrev pub length : List A → ℕ
  length [] = 0
  length (x ∷ xs) = suc (length xs)

  abbrev pub get_elem? : List A → ℕ → Option A
  get_elem? [] i = none
  get_elem? (x ∷ xs) zero = some x
  get_elem? (x ∷ xs) (suc i) = get_elem? xs i

  -- A write out of bounds changes nothing.
  abbrev pub set : List A → ℕ → A → List A
  set [] i v = []
  set (x ∷ xs) zero v = v ∷ xs
  set (x ∷ xs) (suc i) v = x ∷ set xs i v

  abbrev pub take : ℕ → List A → List A
  take zero xs = []
  take (suc n) [] = []
  take (suc n) (x ∷ xs) = x ∷ take n xs

  abbrev pub drop : ℕ → List A → List A
  drop zero xs = xs
  drop (suc n) [] = []
  drop (suc n) (x ∷ xs) = drop n xs

  -- The slice with `v` put before position `i`, and the slice without position `i`.
  abbrev pub insert_at : List A → ℕ → A → List A
  insert_at xs i v = take i xs ++ v ∷ drop i xs

  abbrev pub remove_at : List A → ℕ → List A
  remove_at xs i = take i xs ++ drop (suc i) xs

  pub length-append : (xs ys : List A) → length (xs ++ ys) ≡ length xs + length ys
  length-append [] ys = omega arith
  length-append (x ∷ xs) ys = omega (arith, length-append xs ys)

  pub take-append-drop : (n : ℕ) (xs : List A) → take n xs ++ drop n xs ≡ xs
  take-append-drop zero xs = refl
  take-append-drop (suc n) [] = refl
  take-append-drop (suc n) (x ∷ xs) = rw (take-append-drop n xs)

  pub length-take : (n : ℕ) (xs : List A) → n ≤ length xs → length (take n xs) ≡ n
  length-take zero xs h = refl
  length-take (suc n) [] h = absurd (omega arith)
  length-take (suc n) (x ∷ xs) h = ap suc (length-take n xs (omega arith))

  pub length-drop : (n : ℕ) (xs : List A) → length (drop n xs) ≡ length xs - n
  length-drop zero xs = omega arith
  length-drop (suc n) [] = omega arith
  length-drop (suc n) (x ∷ xs) = omega (arith, length-drop n xs)

  pub length-set : (xs : List A) (i : ℕ) (v : A) → length (set xs i v) ≡ length xs
  length-set [] i v = refl
  length-set (x ∷ xs) zero v = refl
  length-set (x ∷ xs) (suc i) v = ap suc (length-set xs i v)

  pub get_elem?-lt : (xs : List A) (i : ℕ) → i < length xs → (x : A) × (get_elem? xs i ≡ some x)
  get_elem?-lt [] i h = absurd (omega arith)
  get_elem?-lt (x ∷ xs) zero h = (x, refl)
  get_elem?-lt (x ∷ xs) (suc i) h = get_elem?-lt xs i (omega arith)

  pub get_elem?-insert_at :
      (xs : List A) (i : ℕ) (v : A) → i ≤ length xs → get_elem? (insert_at xs i v) i ≡ some v
  get_elem?-insert_at xs zero v h = refl
  get_elem?-insert_at [] (suc i) v h = absurd (omega arith)
  get_elem?-insert_at (x ∷ xs) (suc i) v h = get_elem?-insert_at xs i v (omega arith)

  pub drop-append : (xs ys : List A) → drop (length xs) (xs ++ ys) ≡ ys
  drop-append [] ys = refl
  drop-append (x ∷ xs) ys = drop-append xs ys

  pub take-append : (xs ys : List A) → take (length xs) (xs ++ ys) ≡ xs
  take-append [] ys = refl
  take-append (x ∷ xs) ys = ap (◌∷◌ x) (take-append xs ys)

-- The sum of a measure over a list.
module _ {ℓ} {A : Type ℓ} (size : A → ℕ) where
  abbrev pub sum_by : List A → ℕ
  sum_by [] = 0
  sum_by (x ∷ xs) = size x + sum_by xs

  pub sum_by-append : (xs ys : List A) → sum_by (xs ++ ys) ≡ sum_by xs + sum_by ys
  sum_by-append [] ys = omega arith
  sum_by-append (x ∷ xs) ys = omega (arith, sum_by-append xs ys)

  pub sum_by-take-drop : (n : ℕ) (xs : List A) → sum_by (take n xs) + sum_by (drop n xs) ≡ sum_by xs
  sum_by-take-drop zero xs = omega arith
  sum_by-take-drop (suc n) [] = omega arith
  sum_by-take-drop (suc n) (x ∷ xs) = omega (arith, sum_by-take-drop n xs)
