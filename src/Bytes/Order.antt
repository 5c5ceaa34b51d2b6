-- ===== src/Bytes/Order.antt =====
-- `bytes.Compare` orders two arrays as their big-endian numbers.
use Prim.Native.Nat.{compare}
use atree.Prelude.{ℕ, ◌+◌, ◌*◌, ◌^◌, ◌<◌, ◌≡◌, refl, List, [], ◌∷◌, arith, length}
use native.Mathlib.Nat.{pow-suc}
use atree.Bytes.Defs.{Bytes8, IsByte8, to_list, compare_bytes, be_uint64, then_compare}

-- The big-endian number that a slice of bytes spells.
be_value : List ℕ → ℕ
be_value [] = 0
be_value (b ∷ bs) = b * 256 ^ length bs + be_value bs

abbrev AreBytes : List ℕ → Type 0
AreBytes [] = Unit
AreBytes (b ∷ bs) = (b < 256) × AreBytes bs

be_value-lt : (bs : List ℕ) → AreBytes bs → be_value bs < 256 ^ length bs
unfolding be_value
be_value-lt [] h = omega arith
be_value-lt (b ∷ bs) h = grind (arith, be_value-lt bs h.1, pow-suc 256 (length bs))

-- The first byte outweighs the rest.
lt_of_first : (p x y r s : ℕ) → x < y → r < p → x * p + r < y * p + s
lt_of_first p x y r s h k = grind arith

compare_by_first :
    (p x y r s : ℕ)
    → r < p
    → s < p
    → then_compare (compare x y) (compare r s) ≡ compare (x * p + r) (y * p + s)
compare_by_first p x y r s h k = ground (arith, lt_of_first p x y r s, lt_of_first p y x s r)

compare_bytes-be_value :
    (xs ys : List ℕ)
    → length xs ≡ length ys
    → AreBytes xs
    → AreBytes ys
    → compare_bytes xs ys ≡ compare (be_value xs) (be_value ys)
unfolding compare_bytes be_value
compare_bytes-be_value [] [] e h k = refl
compare_bytes-be_value [] (y ∷ ys) e h k = absurd (omega arith)
compare_bytes-be_value (x ∷ xs) [] e h k = absurd (omega arith)
compare_bytes-be_value (x ∷ xs) (y ∷ ys) e h k =
    let same : length xs ≡ length ys = omega arith in
    rw (compare_bytes-be_value xs ys same h.1 k.1, same)
      (compare_by_first (256 ^ length ys) x y (be_value xs) (be_value ys)
        (rw same at (be_value-lt xs h.1)) (be_value-lt ys k.1))

be_uint64-be_value : (x : Bytes8) → be_value (to_list x) ≡ be_uint64 x
unfolding be_uint64 be_value
be_uint64-be_value x = omega arith

pub compare_bytes-be_uint64 :
    (x y : Bytes8)
    → IsByte8 x
    → IsByte8 y
    → compare_bytes (to_list x) (to_list y) ≡ compare (be_uint64 x) (be_uint64 y)
compare_bytes-be_uint64 x y h k =
    rw (← be_uint64-be_value x, ← be_uint64-be_value y)
      (compare_bytes-be_value (to_list x) (to_list y) refl (omega arith) (omega arith))
