-- ===== src/Map/Hkey.antt =====
-- hkeyElements of map_elements_hashkey.go, over the type of its elements and their Size(): the
-- search for a digest, what Set and Remove do to the two slices and the size, and the operations
-- of slabs. The calls of the elements' own methods stand in Element.

pub mod Slabs
pub mod Shape
pub mod Search
pub mod Update
pub mod Cut
pub mod Sorted
pub mod Shares
pub mod Lend
pub mod Borrow
pub mod Join
use atree.Prelude.{
  ℕ, zero, suc, ◌+◌, ◌-◌, ◌/◌, ◌%◌, ◌≡◌, Bool, true, false, Option, none, some, List, [], ◌∷◌, ◌++◌,
  ltb, leb, ◌==◌, if◌then◌else◌, length, get_elem?, set, take, drop, insert_at, remove_at, add32,
  sub32, sub64, u32_mod, reverse, not,
}
use atree.Errors.{
  Result, ok, err, panic, ◌>>=◌, new_index_out_of_bounds_error, new_slab_rebalance_error, Error,
}
use atree.Settings.{Settings, hkey_elements_prefix_size, digest_size, map_data_slab_prefix_size}
use atree.Array.Data.Rebalance.{mid_of}
use atree.Map.Slab.{HkeyElements}

-- The binary search of getElement, Set and Remove, for the elements from `i` up to `j`: the index of
-- the digest, if it is there, and `lessThanIndex`, which getElement and Remove do not use. The fuel
-- bounds the rounds.
unfoldable pub search : List ℕ → ℕ → ℕ → ℕ → ℕ → ℕ → Result (Option ℕ × ℕ)
search hkeys hkey zero less i j = panic
search hkeys hkey (suc fuel) less i j =
    let h = (i + j) / 2 in
    let below = search hkeys hkey fuel h i h in
    let above = search hkeys hkey fuel less (h + 1) j in
    if ltb i j
    then elim (get_elem? hkeys h) [
      | none ↦ panic
      | some k ↦ if ltb hkey k then below else if ltb k hkey then above else ok (some h, less)
    ]
    else ok (none, less)

unfoldable pub find : List ℕ → ℕ → Result (Option ℕ × ℕ)
unfolding search
find hkeys hkey = search hkeys hkey (suc (length hkeys)) 0 0 (length hkeys)

-- What Set does with a digest: the element at an index has it, or a new element with it goes before
-- an index. The first element, a prepended one, an appended one and an inserted one all come to the
-- same writes.
pub data Place : Type 0 where
  at_equal : ℕ → Place
  at_new : ℕ → Place

abbrev pub after_search : Option ℕ × ℕ → Place
after_search (some index, less) = at_equal index
after_search (none, less) = at_new less

unfoldable pub place_in : List ℕ → ℕ → Result Place
unfolding find
place_in [] hkey = ok (at_new 0)
place_in (first ∷ rest) hkey =
    if ltb hkey first
    then ok (at_new 0)
    else elim (get_elem? (first ∷ rest) (length (first ∷ rest) - 1)) [
      | none ↦ panic
      | some last ↦
          if ltb last hkey
          then ok (at_new (length (first ∷ rest)))
          else do found ← find (first ∷ rest) hkey; ok (after_search found)
    ]

module _ {T : Type 0} where
  unfoldable pub first_key : HkeyElements T → ℕ
  first_key e = elim (e.hkeys) [ [] ↦ 0 | k ∷ _ ↦ k ]

  unfoldable pub element : HkeyElements T → ℕ → Result T
  element e i = elim (get_elem? e.elems i) [
    | some t ↦ ok t
    | none ↦ err (new_index_out_of_bounds_error i 0 (length e.elems))
  ]

unfoldable pub new_hkey_elements : {T : Type 0} → ℕ → HkeyElements T
new_hkey_elements level = record {
  hkeys = [];
  elems = [];
  size = hkey_elements_prefix_size;
  level = level;
}

module _ {T : Type 0} (elem_size : T → ℕ) where
  -- The bytes of an element with its digest.
  abbrev pub sized : T → ℕ
  sized t = add32 (elem_size t) digest_size

  unfoldable pub new_hkey_elements_with_element : ℕ → ℕ → T → HkeyElements T
  new_hkey_elements_with_element level hkey t = record {
    hkeys = hkey ∷ [];
    elems = t ∷ [];
    size = add32 (hkey_elements_prefix_size + digest_size) (elem_size t);
    level = level;
  }

  unfoldable pub with_new : HkeyElements T → ℕ → ℕ → T → HkeyElements T
  with_new e index hkey t = record e {
    hkeys = insert_at e.hkeys index hkey;
    elems = insert_at e.elems index t;
    size = add32 e.size (add32 digest_size (elem_size t));
  }

  unfoldable pub size_of_all : ℕ → List T → ℕ
  size_of_all size [] = size
  size_of_all size (t ∷ ts) = size_of_all (add32 size (sized t)) ts

  -- The end of Set where the digest is there: the size is computed anew.
  unfoldable pub with_updated : HkeyElements T → ℕ → T → HkeyElements T
  unfolding size_of_all
  with_updated e index t = record e {
    elems = set e.elems index t;
    size = size_of_all hkey_elements_prefix_size (set e.elems index t);
  }

  -- The end of Remove, for the element that was at the index: nothing of it is left, or `t` is.
  unfoldable pub without : HkeyElements T → ℕ → T → HkeyElements T
  without e index old = record e {
    hkeys = remove_at e.hkeys index;
    elems = remove_at e.elems index;
    size = sub32 e.size (add32 digest_size (elem_size old));
  }

  unfoldable pub with_replaced : HkeyElements T → ℕ → T → T → HkeyElements T
  with_replaced e index old t = record e {
    elems = set e.elems index t;
    size = add32 e.size (sub32 (elem_size t) (elem_size old));
  }
