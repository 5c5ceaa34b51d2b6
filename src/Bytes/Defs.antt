-- ===== src/Bytes/Defs.antt =====
-- `[8]byte`, its equality, and its reading as a big-endian number.
use Prim.Native.Nat.{compare, Ordering}
use atree.Prelude.{
  ℕ, ◌+◌, ◌*◌, ◌/◌, ◌%◌, ◌^◌, ◌<◌, ◌≡◌, ◌↔◌, refl, Bool, true, ◌&&◌, Option, none, some, List, [],
  ◌∷◌, arith, ◌==◌, u64_mod,
}

-- `[8]byte`.
pub record Bytes8 : Type 0 where
  pub b0 : ℕ
  pub b1 : ℕ
  pub b2 : ℕ
  pub b3 : ℕ
  pub b4 : ℕ
  pub b5 : ℕ
  pub b6 : ℕ
  pub b7 : ℕ

-- Each entry is a byte.
pub record IsByte8 (a : Bytes8) : Type 0 where
  pub r0 : a.b0 < 256
  pub r1 : a.b1 < 256
  pub r2 : a.b2 < 256
  pub r3 : a.b3 < 256
  pub r4 : a.b4 < 256
  pub r5 : a.b5 < 256
  pub r6 : a.b6 < 256
  pub r7 : a.b7 < 256

-- The zero value.
abbrev pub undefined : Bytes8
undefined = record { b0 = 0; b1 = 0; b2 = 0; b3 = 0; b4 = 0; b5 = 0; b6 = 0; b7 = 0 }

abbrev pub to_list : Bytes8 → List ℕ
to_list a = a.b0 ∷ a.b1 ∷ a.b2 ∷ a.b3 ∷ a.b4 ∷ a.b5 ∷ a.b6 ∷ a.b7 ∷ []

-- The first eight entries of a slice, and what follows them.
unfoldable pub of_list : List ℕ → Option (Bytes8 × List ℕ)
of_list (a ∷ b ∷ c ∷ d ∷ e ∷ f ∷ g ∷ h ∷ rest) =
    some (record { b0 = a; b1 = b; b2 = c; b3 = d; b4 = e; b5 = f; b6 = g; b7 = h }, rest)
of_list _ = none

-- `==` on arrays.
unfoldable pub Bytes8_eq : Bytes8 → Bytes8 → Bool
Bytes8_eq x y =
    x.b0 == y.b0
    && x.b1 == y.b1
    && x.b2 == y.b2
    && x.b3 == y.b3
    && x.b4 == y.b4
    && x.b5 == y.b5
    && x.b6 == y.b6
    && x.b7 == y.b7

-- `binary.BigEndian.Uint64` and `binary.BigEndian.PutUint64`.
unfoldable pub be_uint64 : Bytes8 → ℕ
be_uint64 a =
    a.b0 * 2 ^ 56
    + a.b1 * 2 ^ 48
    + a.b2 * 2 ^ 40
    + a.b3 * 2 ^ 32
    + a.b4 * 2 ^ 24
    + a.b5 * 2 ^ 16
    + a.b6 * 2 ^ 8
    + a.b7

unfoldable pub put_uint64 : ℕ → Bytes8
put_uint64 v = record {
  b0 = v / 2 ^ 56 % 256;
  b1 = v / 2 ^ 48 % 256;
  b2 = v / 2 ^ 40 % 256;
  b3 = v / 2 ^ 32 % 256;
  b4 = v / 2 ^ 24 % 256;
  b5 = v / 2 ^ 16 % 256;
  b6 = v / 2 ^ 8 % 256;
  b7 = v % 256;
}

-- The second answer where the first finds no difference.
abbrev pub then_compare : Ordering → Ordering → Ordering
then_compare Ordering.lt o = Ordering.lt
then_compare Ordering.eq o = o
then_compare Ordering.gt o = Ordering.gt

-- `bytes.Compare`: the first difference decides, and a prefix comes first.
unfoldable pub compare_bytes : List ℕ → List ℕ → Ordering
compare_bytes [] [] = Ordering.eq
compare_bytes [] (y ∷ ys) = Ordering.lt
compare_bytes (x ∷ xs) [] = Ordering.gt
compare_bytes (x ∷ xs) (y ∷ ys) = then_compare (compare x y) (compare_bytes xs ys)

pub of_list-to_list :
    (a : Bytes8) (rest : List ℕ)
    → of_list (a.b0 ∷ a.b1 ∷ a.b2 ∷ a.b3 ∷ a.b4 ∷ a.b5 ∷ a.b6 ∷ a.b7 ∷ rest) ≡ some (a, rest)
unfolding of_list
of_list-to_list a rest = refl

pub Bytes8_eq_iff : (x y : Bytes8) → (Bytes8_eq x y ≡ true) ↔ (x ≡ y)
unfolding Bytes8_eq
Bytes8_eq_iff x y = ground arith

pub be_uint64-lt : (a : Bytes8) → IsByte8 a → be_uint64 a < u64_mod
unfolding be_uint64
be_uint64-lt a h = omega arith

pub put_uint64-IsByte8 : (v : ℕ) → IsByte8 (put_uint64 v)
unfolding put_uint64
put_uint64-IsByte8 v = omega arith

pub be_uint64-put_uint64 : (v : ℕ) → be_uint64 (put_uint64 v) ≡ v % u64_mod
unfolding put_uint64 be_uint64
be_uint64-put_uint64 v = omega arith

pub put_uint64-be_uint64 : (a : Bytes8) → IsByte8 a → put_uint64 (be_uint64 a) ≡ a
unfolding put_uint64 be_uint64
put_uint64-be_uint64 a h = λ i. record {
  b0 = e0 i;
  b1 = e1 i;
  b2 = e2 i;
  b3 = e3 i;
  b4 = e4 i;
  b5 = e5 i;
  b6 = e6 i;
  b7 = e7 i;
}
  where
    e0 : be_uint64 a / 2 ^ 56 % 256 ≡ a.b0
    e0 = omega arith

    e1 : be_uint64 a / 2 ^ 48 % 256 ≡ a.b1
    e1 = omega arith

    e2 : be_uint64 a / 2 ^ 40 % 256 ≡ a.b2
    e2 = omega arith

    e3 : be_uint64 a / 2 ^ 32 % 256 ≡ a.b3
    e3 = omega arith

    e4 : be_uint64 a / 2 ^ 24 % 256 ≡ a.b4
    e4 = omega arith

    e5 : be_uint64 a / 2 ^ 16 % 256 ≡ a.b5
    e5 = omega arith

    e6 : be_uint64 a / 2 ^ 8 % 256 ≡ a.b6
    e6 = omega arith

    e7 : be_uint64 a % 256 ≡ a.b7
    e7 = omega arith
