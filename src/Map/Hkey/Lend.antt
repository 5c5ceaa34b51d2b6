-- ===== src/Map/Hkey/Lend.antt =====
-- LendToRight of hkeyElements (map_elements_hashkey.go), after CanLendToRight has said yes.
use atree.Prelude.{
  ℕ, ◌+◌, ◌-◌, ◌*◌, ◌/◌, ◌^◌, ◌≤◌, ◌<◌, ◌≡◌, refl, ◌∙◌, ap, sym, true, ◌&&◌, List, [], ◌∷◌, ◌++◌,
  arith, ltb, leb, length, take, drop, add32, sub32, add32_lem, sub32_lem, Bool-cases, inl, inr,
  ◌⊎◌, reverse, sum_by-append, length-append, take-append, take-append-drop, sum_by-take-drop, ◌==◌,
  ==_iff, length-take, length-drop,
}
use mathlib.Core.List.{reverse-append, reverse-reverse, append_assoc}
use atree.Errors.{ok}
use atree.Settings.{Settings, IsSettings, hkey_elements_prefix_size, map_data_slab_prefix_size}
use atree.Array.Data.Shape.{AreSized}
use atree.Array.Data.Rebalance.{mid_of}
use atree.Array.Data.Rebalance.Lendable.{
  IsLendable, IsLendable-le, bytes-reverse, length-reverse, AreSized-reverse,
}
use atree.Map.Slab.{HkeyElements}
use atree.Map.Hkey.{sized}
use atree.Map.Hkey.Slabs.{elements_can_lend_right, lend_at, lend_loop, lend_elements}
use atree.Map.Hkey.Shape.{AreSorted, sized_bytes, IsHkeyElements}
use atree.Map.Hkey.Sorted.{AreSorted-left, AreSorted-right}
use atree.Map.Hkey.Shares.{Shares, least_elements, can_lend-Lendable}

module _ {T : Type 0} (elem_size : T → ℕ) where
  -- The left part keeps `kept` of the elements `ts`, from its last to its first, and `gone` have
  -- moved to the right: both parts reach `least` bytes, and the right one has `most` at most.
  record IsLend (least most size : ℕ) (ts : List T) (p : ℕ × ℕ) (gone kept : List T) : Type 0 where
    parts : ts ≡ gone ++ kept
    size_left : p.0 ≡ sized_bytes elem_size kept
    count_left : p.1 ≡ length kept
    enough_left : least ≤ p.0
    enough_right : least ≤ size - p.0
    room_right : size - p.0 ≤ most

  -- The sizes while elements of `total` bytes lend to ones that lack `wanted` bytes.
  record IsLending (least most limit size total wanted : ℕ) : Type 0 where
    sum : size + wanted ≡ total + least
    lender : least + wanted ≤ total
    few_wanted : wanted ≤ least
    balanced : size ≤ (size + 1) / 2 + most
    roomy : least + limit ≤ most
    some_least : 0 < least
    total_fits : total < 2 ^ 30
    size_fits : size < 2 ^ 31

  module _ (least most limit size total wanted : ℕ)
      (fixed : IsLending least most limit size total wanted) where
    abbrev Lendable : ℕ → List T → Type 0
    Lendable =
        IsLendable (sized elem_size) (least + hkey_elements_prefix_size)
          (total + hkey_elements_prefix_size) wanted

    lend_loop-IsLend :
        (lent left count : ℕ) (ts : List T)
        → left ≡ sized_bytes elem_size ts
        → count ≡ length ts
        → total ≡ left + lent
        → least ≤ left
        → size - left ≤ most
        → AreSized (sized elem_size) limit ts
        → (wanted ≤ lent) ⊎ Lendable lent ts
        → (gone kept : List T) × IsLend least most size ts
            (lend_loop elem_size least size ((size + 1) / 2) left count ts)
            gone
            kept
    unfolding lend_loop
    lend_loop-IsLend lent left count [] l n h q r a o = absurd (omega (arith, fixed.some_least))
    lend_loop-IsLend lent left count (t ∷ ts) l n h q r a o =
        let bytes = sized elem_size t in
        let keep : sub32 left bytes ≡ left - bytes =
          sub32_lem _ _ (omega arith) (omega (arith, fixed.total_fits)) in
        let given : sub32 size left ≡ size - left =
          sub32_lem _ _ (omega (arith, fixed.sum, fixed.few_wanted))
            (omega (arith, fixed.size_fits)) in
        rw (keep, given)
          (elim (Bool-cases (ltb (left - bytes) ((size + 1) / 2) && leb least (size - left))) [
            | inl stop ↦ rw stop (
              [],
              t ∷ ts,
              record {
                parts = refl;
                size_left = l;
                count_left = n;
                enough_left = q;
                enough_right = ground (arith, stop);
                room_right = r;
              },
            )
            | inr go ↦ rw go (
                let (gone, kept, p) =
                  lend_loop-IsLend (lent + bytes) (left - bytes) (count - 1) ts (omega arith)
                    (omega arith) (omega arith) (ground arith) (ground arith) a.2
                    (next_lendable o) in
                (
                  t ∷ gone,
                  kept,
                  record {
                    parts = ap (◌∷◌ t) p.parts;
                    size_left = p.size_left;
                    count_left = p.count_left;
                    enough_left = p.enough_left;
                    enough_right = p.enough_right;
                    room_right = p.room_right;
                  },
                ))
          ])
      where
        next_lendable :
            (wanted ≤ lent) ⊎ Lendable lent (t ∷ ts)
            → (wanted ≤ lent + sized elem_size t) ⊎ Lendable (lent + sized elem_size t) ts
        next_lendable (inl h) = inl (omega arith)
        next_lendable (inr (h, rest)) = rest

  lend_at-Shares :
      (c : Settings) (e right : HkeyElements T) (p : ℕ × ℕ) (gone kept : List T)
      → IsSettings c
      → IsHkeyElements elem_size e
      → IsHkeyElements elem_size right
      → AreSorted (e.hkeys ++ right.hkeys)
      → map_data_slab_prefix_size + e.size ≤ c.max_threshold
      → IsLend
          (c.min_threshold - 26)
          (c.max_threshold - 26)
          (sized_bytes elem_size e.elems + sized_bytes elem_size right.elems)
          (reverse e.elems)
          p
          gone
          kept
      → Shares elem_size c e right
          (lend_at (sized_bytes elem_size e.elems + sized_bytes elem_size right.elems) p e right).0
          (lend_at (sized_bytes elem_size e.elems + sized_bytes elem_size right.elems) p e right).1
  unfolding lend_at add32 sub32
  lend_at-Shares c e right (size, count) gone kept set se sr sorted me d =
      let whole : e.elems ≡ reverse kept ++ reverse gone =
        sym (reverse-reverse e.elems) ∙ ap reverse d.parts ∙ reverse-append gone kept in
      let kept_length = length-reverse (sized elem_size) kept in
      let taken : take count e.elems ≡ reverse kept =
        rw (d.count_left, ← kept_length, whole) (take-append (reverse kept) (reverse gone)) in
      let kept_bytes = bytes-reverse (sized elem_size) kept in
      let split : sized_bytes elem_size (take count e.elems)
            + sized_bytes elem_size (drop count e.elems)
          ≡ sized_bytes elem_size e.elems =
        sum_by-take-drop (sized elem_size) count e.elems in
      let taken_bytes : sized_bytes elem_size (take count e.elems) ≡ size =
        ap (sized_bytes elem_size) taken ∙ omega (arith, kept_bytes, d.size_left) in
      let lengths : length e.elems ≡ length (reverse kept) + length (reverse gone) =
        ap length whole ∙ length-append (reverse kept) (reverse gone) in
      let inside : count ≤ length e.elems = omega (arith, d.count_left, kept_length) in
      let hkeys : take count e.hkeys ++ (drop count e.hkeys ++ right.hkeys)
          ≡ e.hkeys ++ right.hkeys =
        sym (append_assoc (take count e.hkeys) (drop count e.hkeys) right.hkeys)
        ∙ ap (λ xs. xs ++ right.hkeys) (take-append-drop count e.hkeys) in
      let sorted' : AreSorted (take count e.hkeys ++ (drop count e.hkeys ++ right.hkeys)) =
        rw hkeys sorted in
      let moved = sum_by-append (sized elem_size) (drop count e.elems) right.elems in
      record {
        hkeys = hkeys;
        elems =
            sym (append_assoc (take count e.elems) (drop count e.elems) right.elems)
            ∙ ap (λ xs. xs ++ right.elems) (take-append-drop count e.elems);
        left_shape = record {
          sorted = AreSorted-left (take count e.hkeys) (drop count e.hkeys ++ right.hkeys) sorted';
          paired = omega (
            arith,
            length-take count e.elems inside,
            length-take count e.hkeys (omega (arith, se.paired)),
          );
          counted = omega (arith, d.size_left, se.counted, se.fits);
          fits = omega (arith, d.size_left, se.counted, se.fits);
        };
        right_shape = record {
          sorted = AreSorted-right (take count e.hkeys) (drop count e.hkeys ++ right.hkeys) sorted';
          paired = omega (
            arith,
            length-append (drop count e.hkeys) right.hkeys,
            length-append (drop count e.elems) right.elems,
            length-drop count e.hkeys,
            length-drop count e.elems,
            se.paired,
            sr.paired,
          );
          counted = omega (arith, se.counted, se.fits, sr.counted, sr.fits);
          fits =
              omega (
                arith, se.counted, se.fits, sr.counted, sr.fits, d.room_right, set.upper, set.most,
              );
        };
        left_level = refl;
        right_level = refl;
        least_left = omega (arith, se.counted, se.fits, d.enough_left);
        most_left = omega (arith, se.counted, se.fits);
        least_right = omega (arith, se.counted, se.fits, sr.counted, sr.fits, d.enough_right);
        most_right =
            omega
              (arith, se.counted, se.fits, sr.counted, sr.fits, d.room_right, set.upper, set.least);
      }

  module _ (c : Settings) (set : IsSettings c) where
    lending :
        (e right : HkeyElements T) (wanted limit : ℕ)
        → IsHkeyElements elem_size e
        → IsHkeyElements elem_size right
        → 2 * limit + 26 ≤ c.target_threshold
        → map_data_slab_prefix_size + e.size ≤ c.max_threshold
        → map_data_slab_prefix_size + right.size + wanted ≡ c.min_threshold
        → c.min_threshold - 26 + 8 + wanted ≤ sized_bytes elem_size e.elems + 8
        → IsLending
            (c.min_threshold - 26)
            (c.max_threshold - 26)
            limit
            (sized_bytes elem_size e.elems + sized_bytes elem_size right.elems)
            (sized_bytes elem_size e.elems)
            wanted
    lending e right wanted limit se sr legal me short lender = record {
      sum = omega (arith, short, sr.counted, set.lower, set.least);
      lender = omega arith;
      few_wanted = omega (arith, short, sr.counted);
      balanced = omega (arith, short, sr.counted, se.counted, me, set.lower, set.upper);
      roomy = omega (arith, legal, set.lower, set.upper, set.least);
      some_least = omega (arith, set.lower, set.least);
      total_fits = omega (arith, se.counted, se.fits);
      size_fits = omega (arith, se.counted, se.fits, sr.counted, sr.fits);
    }

    -- If the right elements make a leaf that lacks `wanted` bytes, and the left ones, which make a
    -- leaf that is not full, of elements of legal size, can lend them, then LendToRight succeeds, and
    -- keeps the digests and the elements in order, with the invariant on both sides, at the same
    -- level and within the thresholds.
    pub lend_elements-Shares :
        (e right : HkeyElements T) (wanted limit : ℕ)
        → IsHkeyElements elem_size e
        → IsHkeyElements elem_size right
        → AreSorted (e.hkeys ++ right.hkeys)
        → e.level ≡ right.level
        → AreSized (sized elem_size) limit e.elems
        → 2 * limit + 26 ≤ c.target_threshold
        → map_data_slab_prefix_size + e.size ≤ c.max_threshold
        → map_data_slab_prefix_size + right.size + wanted ≡ c.min_threshold
        → elements_can_lend_right elem_size c e wanted ≡ true
        → (l r : HkeyElements T) × (lend_elements elem_size c e right ≡ ok (l, r))
          × Shares elem_size c e right l r
    unfolding lend_elements elements_can_lend_right mid_of
    lend_elements-Shares e right wanted limit se sr sorted levels each legal me short can =
        let left_bytes = sized_bytes elem_size e.elems in
        let right_bytes = sized_bytes elem_size right.elems in
        let least8 : c.min_threshold - 26 + 8 ≡ c.min_threshold - map_data_slab_prefix_size =
          omega (arith, set.lower, set.least) in
        let total8 : left_bytes + 8 ≡ e.size = omega (arith, se.counted) in
        let lendable : IsLendable (sized elem_size) (c.min_threshold - 26 + 8) (left_bytes + 8)
            wanted 0 (reverse e.elems) =
          rw (least8, total8)
            (can_lend-Lendable elem_size c set (reverse e.elems) e wanted se
              (bytes-reverse (sized elem_size) e.elems) can) in
        let lender = IsLendable-le (sized elem_size) _ _ wanted 0 (reverse e.elems) lendable in
        let plus : add32 e.size right.size ≡ e.size + right.size =
          add32_lem _ _ (omega (arith, se.fits, sr.fits)) in
        let size : sub32 (e.size + right.size) (hkey_elements_prefix_size * 2)
            ≡ left_bytes + right_bytes =
          sub32_lem _ _ (omega (arith, se.counted, sr.counted)) (omega (arith, se.fits, sr.fits))
          ∙ omega (arith, se.counted, sr.counted) in
        let mid : add32 (left_bytes + right_bytes) 1 ≡ left_bytes + right_bytes + 1 =
          add32_lem _ _ (omega (arith, se.counted, se.fits, sr.counted, sr.fits)) in
        let left : sub32 e.size hkey_elements_prefix_size ≡ left_bytes =
          sub32_lem _ _ (omega (arith, se.counted)) (omega (arith, se.fits))
          ∙ omega (arith, se.counted) in
        let same_level : (e.level == right.level) ≡ true = (==_iff _ _).1 levels in
        let (gone, kept, d) =
          lend_loop-IsLend (c.min_threshold - 26) (c.max_threshold - 26) limit
            (left_bytes + right_bytes) left_bytes wanted
            (lending e right wanted limit se sr legal me short lender) 0 left_bytes (length e.elems)
            (reverse e.elems) (omega (arith, bytes-reverse (sized elem_size) e.elems))
            (omega (arith, length-reverse (sized elem_size) e.elems)) (omega arith)
            (omega (arith, lender)) (omega (arith, short, sr.counted, set.lower, set.upper))
            (AreSized-reverse (sized elem_size) limit e.elems each) (inr lendable) in
        rw (plus, size, mid, left, same_level, least_elements elem_size c set)
          (_, _, refl, lend_at-Shares c e right _ gone kept set se sr sorted me d)
