-- ===== src/Flag/Bits.antt =====
-- Bits of a byte: setting one mask, seen through other masks. All bytes are checked by evaluation.
use Prim.Native.Nat.{bit_and, bit_or}
use atree.Prelude.{
  ℕ, zero, suc, ◌<◌, ◌≡◌, refl, ◌*◌, ◌/◌, ◌%◌, Bool, true, false, if◌then◌else◌, ◌&&◌, List, [],
  ◌∷◌, arith, ◌==◌, ==_iff,
}

-- A test that holds of every number under a bound.
passes : (ℕ → Bool) → ℕ → Bool
passes test zero = true
passes test (suc top) = if passes test top then test top else false

passes_lem : (test : ℕ → Bool) (bound x : ℕ) → x < bound → passes test bound ≡ true → test x ≡ true
unfolding passes
passes_lem test zero x below holds = absurd (omega arith)
passes_lem test (suc top) x below holds =
    let before : x < top → passes test top ≡ true → test x ≡ true = passes_lem test top x in
    ground (arith, before)

-- Setting `mask` in `x` shows through `mask` and not through the others.
sets_only : ℕ → List ℕ → ℕ → Bool
sets_only mask [] x = bit_and (bit_or x mask) mask == mask
sets_only mask (other ∷ others) x =
    bit_and (bit_or x mask) other == bit_and x other && sets_only mask others x

abbrev pub SetsOnly : ℕ → List ℕ → ℕ → Type 0
SetsOnly mask [] x = bit_and (bit_or x mask) mask ≡ mask
SetsOnly mask (other ∷ others) x =
    (bit_and (bit_or x mask) other ≡ bit_and x other) × SetsOnly mask others x

sets_only_sound :
    (mask : ℕ) (others : List ℕ) (x : ℕ) → sets_only mask others x ≡ true → SetsOnly mask others x
unfolding sets_only
sets_only_sound mask [] x h = (==_iff _ _).0 h
sets_only_sound mask (other ∷ others) x h =
    ((==_iff _ _).0 (ground arith), sets_only_sound mask others x (ground arith))

-- The masks of the second byte.
pub root_bit : (x : ℕ) → x < 256 → SetsOnly 128 (64 ∷ 32 ∷ 24 ∷ 7 ∷ []) x
unfolding passes sets_only
root_bit x h =
    sets_only_sound 128 (64 ∷ 32 ∷ 24 ∷ 7 ∷ []) x
      (passes_lem (sets_only 128 (64 ∷ 32 ∷ 24 ∷ 7 ∷ [])) 256 x h refl)

pub pointers_bit : (x : ℕ) → x < 256 → SetsOnly 64 (128 ∷ 32 ∷ 24 ∷ 7 ∷ []) x
unfolding passes sets_only
pointers_bit x h =
    sets_only_sound 64 (128 ∷ 32 ∷ 24 ∷ 7 ∷ []) x
      (passes_lem (sets_only 64 (128 ∷ 32 ∷ 24 ∷ 7 ∷ [])) 256 x h refl)

pub any_size_bit : (x : ℕ) → x < 256 → SetsOnly 32 (128 ∷ 64 ∷ 24 ∷ 7 ∷ []) x
unfolding passes sets_only
any_size_bit x h =
    sets_only_sound 32 (128 ∷ 64 ∷ 24 ∷ 7 ∷ []) x
      (passes_lem (sets_only 32 (128 ∷ 64 ∷ 24 ∷ 7 ∷ [])) 256 x h refl)

-- The masks of the first byte.
pub next_bit : (x : ℕ) → x < 256 → SetsOnly 2 (240 ∷ 1 ∷ []) x
unfolding passes sets_only
next_bit x h =
    sets_only_sound 2 (240 ∷ 1 ∷ []) x (passes_lem (sets_only 2 (240 ∷ 1 ∷ [])) 256 x h refl)

pub inlined_bit : (x : ℕ) → x < 256 → SetsOnly 1 (240 ∷ 2 ∷ []) x
unfolding passes sets_only
inlined_bit x h =
    sets_only_sound 1 (240 ∷ 2 ∷ []) x (passes_lem (sets_only 1 (240 ∷ 2 ∷ [])) 256 x h refl)

-- What `version << 4` shows: the version, and no flag.
shifted : ℕ → Bool
shifted v =
    bit_and (v * 16 % 256) 240 / 16 == v
    && bit_and (v * 16 % 256) 1 == 0
    && bit_and (v * 16 % 256) 2 == 0

pub version_bits :
    (v : ℕ)
    → v < 16
    → (bit_and (v * 16 % 256) 240 / 16 ≡ v)
      × (bit_and (v * 16 % 256) 1 ≡ 0)
      × (bit_and (v * 16 % 256) 2 ≡ 0)
unfolding passes shifted
version_bits v h =
    let all = passes_lem shifted 16 v h refl in
    ((==_iff _ _).0 (ground arith), (==_iff _ _).0 (ground arith), (==_iff _ _).0 (ground arith))
