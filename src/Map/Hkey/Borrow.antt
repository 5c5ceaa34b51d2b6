-- ===== src/Map/Hkey/Borrow.antt =====
-- BorrowFromRight of hkeyElements (map_elements_hashkey.go), after CanLendToLeft of the right
-- elements has said yes.
use atree.Prelude.{
  ℕ, suc, ◌+◌, ◌-◌, ◌*◌, ◌/◌, ◌^◌, ◌≤◌, ◌<◌, ◌≡◌, refl, ◌∙◌, ap, true, List, [], ◌∷◌, ◌++◌, arith,
  ltb, leb, length, take, drop, add32, sub32, add32_lem, sub32_lem, Bool-cases, inl, inr, ◌⊎◌,
  sum_by-append, length-append, take-append-drop, sum_by-take-drop, ◌==◌, ==_iff, length-take,
  length-drop,
}
use mathlib.Core.List.{append_assoc}
use atree.Errors.{ok}
use atree.Settings.{Settings, IsSettings, hkey_elements_prefix_size, map_data_slab_prefix_size}
use atree.Array.Data.Shape.{AreSized}
use atree.Array.Data.Rebalance.{mid_of}
use atree.Array.Data.Rebalance.Lendable.{IsLendable, IsLendable-le}
use atree.Map.Slab.{HkeyElements}
use atree.Map.Hkey.{sized}
use atree.Map.Hkey.Slabs.{elements_can_lend_left, borrow_at, borrow_loop, borrow_elements}
use atree.Map.Hkey.Shape.{AreSorted, sized_bytes, IsHkeyElements}
use atree.Map.Hkey.Sorted.{AreSorted-left, AreSorted-right}
use atree.Map.Hkey.Shares.{Shares, least_elements, can_lend-Lendable}

module _ {T : Type 0} (elem_size : T → ℕ) where
  -- Of the right elements `ts` the first `k` move to a left part of `left` bytes and `count`
  -- elements: both parts reach `least` bytes, and the left one has `most` at most.
  record IsBorrow (least most size left count : ℕ) (ts : List T) (p : ℕ × ℕ) (k : ℕ) : Type 0 where
    inside : k ≤ length ts
    size_left : p.0 ≡ left + sized_bytes elem_size (take k ts)
    count_left : p.1 ≡ count + k
    enough_left : least ≤ p.0
    enough_right : least ≤ size - p.0
    room_left : p.0 ≤ most

  -- The sizes while right elements of `total` bytes lend to ones that lack `wanted` bytes.
  record IsBorrowing (least most limit size total wanted : ℕ) : Type 0 where
    sum : size + wanted ≡ total + least
    lender : least + wanted ≤ total
    few_wanted : wanted ≤ least
    roomy : (size + 1) / 2 + limit ≤ most
    some_least : 1 < least
    size_fits : size < 2 ^ 31

  module _ (least most limit size total wanted : ℕ)
      (fixed : IsBorrowing least most limit size total wanted) where
    abbrev Lendable : ℕ → List T → Type 0
    Lendable =
        IsLendable (sized elem_size) (least + hkey_elements_prefix_size)
          (total + hkey_elements_prefix_size) wanted

    borrow_loop-IsBorrow :
        (lent left count : ℕ) (ts : List T)
        → size ≡ left + sized_bytes elem_size ts
        → total ≡ lent + sized_bytes elem_size ts
        → left ≤ (size + 1) / 2
        → AreSized (sized elem_size) limit ts
        → (wanted ≤ lent) ⊎ Lendable lent ts
        → (k : ℕ) × IsBorrow least most size left count ts
            (borrow_loop elem_size least size ((size + 1) / 2) left count ts)
            k
    unfolding borrow_loop
    borrow_loop-IsBorrow lent left count [] t h m a o =
        absurd (omega (arith, fixed.some_least, fixed.lender, fixed.sum, fixed.few_wanted))
    borrow_loop-IsBorrow lent left count (x ∷ ts) t h m a o =
        let bytes = sized elem_size x in
        let plus : add32 left bytes ≡ left + bytes =
          add32_lem _ _ (omega (arith, fixed.size_fits)) in
        let given : sub32 size left ≡ size - left =
          sub32_lem _ _ (omega arith) (omega (arith, fixed.size_fits)) in
        let kept : sub32 (size - left) bytes ≡ size - left - bytes =
          sub32_lem _ _ (omega arith) (omega (arith, fixed.size_fits)) in
        rw (plus, given, kept)
          (elim (Bool-cases (ltb ((size + 1) / 2) (left + bytes))) [
            | inl over ↦ rw over (elim (Bool-cases (leb least (size - left - bytes))) [
              | inl fits ↦ rw fits (1, ground arith)
              | inr stays ↦ rw stays (0, ground arith)
            ])
            | inr under ↦ rw under (
                let (k, p) =
                  borrow_loop-IsBorrow (lent + bytes) (left + bytes) (count + 1) ts (omega arith)
                    (omega arith) (ground arith) a.2 (next_lendable o) in
                (suc k, omega arith))
          ])
      where
        next_lendable :
            (wanted ≤ lent) ⊎ Lendable lent (x ∷ ts)
            → (wanted ≤ lent + sized elem_size x) ⊎ Lendable (lent + sized elem_size x) ts
        next_lendable (inl h) = inl (omega arith)
        next_lendable (inr (h, rest)) = rest

  borrow_at-Shares :
      (c : Settings) (e right : HkeyElements T) (p : ℕ × ℕ) (k : ℕ)
      → IsSettings c
      → IsHkeyElements elem_size e
      → IsHkeyElements elem_size right
      → AreSorted (e.hkeys ++ right.hkeys)
      → map_data_slab_prefix_size + right.size ≤ c.max_threshold
      → IsBorrow
          (c.min_threshold - 26)
          (c.max_threshold - 26)
          (sized_bytes elem_size e.elems + sized_bytes elem_size right.elems)
          (sized_bytes elem_size e.elems)
          (length e.elems)
          right.elems
          p
          k
      → Shares elem_size c e right
          (borrow_at
            (sized_bytes elem_size e.elems + sized_bytes elem_size right.elems)
            p
            e
            right).0
          (borrow_at
            (sized_bytes elem_size e.elems + sized_bytes elem_size right.elems)
            p
            e
            right).1
  unfolding borrow_at add32 sub32
  borrow_at-Shares c e right (size, count) k set se sr sorted me d =
      let start : count - length e.elems ≡ k = omega (arith, d.count_left) in
      let parts = sum_by-take-drop (sized elem_size) k right.elems in
      let taken = length-take k right.elems d.inside in
      let hkeys : (e.hkeys ++ take k right.hkeys) ++ drop k right.hkeys ≡ e.hkeys ++ right.hkeys =
        append_assoc e.hkeys (take k right.hkeys) (drop k right.hkeys)
        ∙ ap (λ xs. e.hkeys ++ xs) (take-append-drop k right.hkeys) in
      let sorted' : AreSorted ((e.hkeys ++ take k right.hkeys) ++ drop k right.hkeys) =
        rw hkeys sorted in
      let counts = length-take k right.hkeys (omega (arith, sr.paired, d.inside)) in
      rw start (record {
        hkeys = hkeys;
        elems =
            append_assoc e.elems (take k right.elems) (drop k right.elems)
            ∙ ap (λ xs. e.elems ++ xs) (take-append-drop k right.elems);
        left_shape = record {
          sorted = AreSorted-left (e.hkeys ++ take k right.hkeys) (drop k right.hkeys) sorted';
          paired = omega (
            arith,
            length-append e.hkeys (take k right.hkeys),
            length-append e.elems (take k right.elems),
            se.paired,
          );
          counted = omega (
            arith,
            d.size_left,
            sum_by-append (sized elem_size) e.elems (take k right.elems),
            d.room_left,
            set.upper,
            set.most,
          );
          fits = omega (arith, d.room_left, set.upper, set.most, set.least);
        };
        right_shape = record {
          sorted = AreSorted-right (e.hkeys ++ take k right.hkeys) (drop k right.hkeys) sorted';
          paired = omega (arith, length-drop k right.hkeys, length-drop k right.elems, sr.paired);
          counted = omega (arith, d.size_left, sr.counted, sr.fits, se.counted, se.fits);
          fits = omega (arith, d.size_left, sr.counted, sr.fits, se.counted, se.fits);
        };
        left_level = refl;
        right_level = refl;
        least_left = omega (arith, d.enough_left, d.room_left, set.upper, set.most);
        most_left = omega (arith, d.room_left, set.upper, set.least, set.most);
        least_right = omega (arith, d.enough_right, se.counted, se.fits, sr.counted, sr.fits);
        most_right = omega (arith, d.size_left, sr.counted, sr.fits, se.counted, se.fits);
      })

  module _ (c : Settings) (set : IsSettings c) (e right : HkeyElements T) (wanted limit : ℕ)
      (se : IsHkeyElements elem_size e) (sr : IsHkeyElements elem_size right) where
    borrowing :
        2 * limit + 26 ≤ c.target_threshold
        → map_data_slab_prefix_size + right.size ≤ c.max_threshold
        → map_data_slab_prefix_size + e.size + wanted ≡ c.min_threshold
        → c.min_threshold - 26 + 8 + wanted ≤ sized_bytes elem_size right.elems + 8
        → IsBorrowing
            (c.min_threshold - 26)
            (c.max_threshold - 26)
            limit
            (sized_bytes elem_size e.elems + sized_bytes elem_size right.elems)
            (sized_bytes elem_size right.elems)
            wanted
    borrowing legal me short lender = record {
      sum = omega (arith, short, se.counted, set.lower, set.least);
      lender = omega arith;
      few_wanted = omega (arith, short, se.counted);
      roomy =
          omega (arith, short, se.counted, sr.counted, me, legal, set.lower, set.upper, set.least);
      some_least = omega (arith, set.lower, set.least);
      size_fits = omega (arith, se.counted, se.fits, sr.counted, sr.fits);
    }

    -- If the left elements make a leaf that lacks bytes, and the right ones, which make a leaf that
    -- is not full, of elements of legal size, can lend them, then BorrowFromRight succeeds, and
    -- keeps the digests and the elements in order, with the invariant on both sides, at the same
    -- level and within the thresholds.
    pub borrow_elements-Shares :
        AreSorted (e.hkeys ++ right.hkeys)
        → e.level ≡ right.level
        → AreSized (sized elem_size) limit right.elems
        → 2 * limit + 26 ≤ c.target_threshold
        → map_data_slab_prefix_size + right.size ≤ c.max_threshold
        → map_data_slab_prefix_size + e.size + wanted ≡ c.min_threshold
        → elements_can_lend_left elem_size c right wanted ≡ true
        → (l r : HkeyElements T) × (borrow_elements elem_size c e right ≡ ok (l, r))
          × Shares elem_size c e right l r
    unfolding borrow_elements elements_can_lend_left mid_of
    borrow_elements-Shares sorted levels each legal me short can =
        let left_bytes = sized_bytes elem_size e.elems in
        let right_bytes = sized_bytes elem_size right.elems in
        let least8 : c.min_threshold - 26 + 8 ≡ c.min_threshold - map_data_slab_prefix_size =
          omega (arith, set.lower, set.least) in
        let total8 : right_bytes + 8 ≡ right.size = omega (arith, sr.counted) in
        let lendable : IsLendable (sized elem_size) (c.min_threshold - 26 + 8) (right_bytes + 8)
            wanted 0 right.elems =
          rw (least8, total8)
            (can_lend-Lendable elem_size c set right.elems right wanted sr refl can) in
        let lender = IsLendable-le (sized elem_size) _ _ wanted 0 right.elems lendable in
        let plus : add32 e.size right.size ≡ e.size + right.size =
          add32_lem _ _ (omega (arith, se.fits, sr.fits)) in
        let size : sub32 (e.size + right.size) (hkey_elements_prefix_size * 2)
            ≡ left_bytes + right_bytes =
          sub32_lem _ _ (omega (arith, se.counted, sr.counted)) (omega (arith, se.fits, sr.fits))
          ∙ omega (arith, se.counted, sr.counted) in
        let mid : add32 (left_bytes + right_bytes) 1 ≡ left_bytes + right_bytes + 1 =
          add32_lem _ _ (omega (arith, se.counted, se.fits, sr.counted, sr.fits)) in
        let left : sub32 e.size hkey_elements_prefix_size ≡ left_bytes =
          sub32_lem _ _ (omega (arith, se.counted)) (omega (arith, se.fits))
          ∙ omega (arith, se.counted) in
        let same_level : (e.level == right.level) ≡ true = (==_iff _ _).1 levels in
        let fixed = borrowing legal me short lender in
        let (k, d) =
          borrow_loop-IsBorrow (c.min_threshold - 26) (c.max_threshold - 26) limit
            (left_bytes + right_bytes) right_bytes wanted fixed 0 left_bytes (length e.elems)
            right.elems refl (omega arith) (omega (arith, fixed.sum, fixed.lender)) each
            (inr lendable) in
        rw (plus, size, mid, left, same_level, least_elements elem_size c set)
          (_, _, refl, borrow_at-Shares c e right _ k set se sr sorted me d)
