-- ===== src/Map/Hkey/Join.antt =====
-- Merge of hkeyElements (map_elements_hashkey.go).
use atree.Prelude.{ℕ, ◌+◌, ◌^◌, ◌<◌, ◌++◌, arith, add32, sub32, sum_by-append, length-append}
use atree.Map.Slab.{HkeyElements}
use atree.Map.Hkey.{sized}
use atree.Map.Hkey.Slabs.{merge_elements}
use atree.Map.Hkey.Shape.{AreSorted, IsHkeyElements}

module _ {T : Type 0} (elem_size : T → ℕ) where
  -- Merging elements whose digests all lie above those of the left ones keeps the invariant, as long
  -- as the two sizes together stay below 2 ^ 30.
  pub merge_elements-IsHkeyElements :
      (e right : HkeyElements T)
      → IsHkeyElements elem_size e
      → IsHkeyElements elem_size right
      → AreSorted (e.hkeys ++ right.hkeys)
      → e.size + right.size < 2 ^ 30
      → IsHkeyElements elem_size (merge_elements e right)
  unfolding merge_elements add32 sub32
  merge_elements-IsHkeyElements e right se sr sorted fits = record {
    sorted = sorted;
    paired = omega (
      arith,
      length-append e.hkeys right.hkeys,
      length-append e.elems right.elems,
      se.paired,
      sr.paired,
    );
    counted =
        omega (arith, sum_by-append (sized elem_size) e.elems right.elems, se.counted, sr.counted);
    fits = omega (arith, se.counted, sr.counted);
  }
