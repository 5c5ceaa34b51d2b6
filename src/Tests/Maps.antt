-- ===== src/Tests/Maps.antt =====
-- Maps of numbers to numbers with digests at two levels, where every key has the same first digest,
-- and elements that stand for their own sizes.
use atree.Map.Element.Fuel.{elements_get_enough}
use atree.Prelude.{
  ℕ, ◌+◌, ◌%◌, ◌≡◌, ◌≢◌, refl, arith, List, [], ◌∷◌, Option, none, some, add32, sub32, sub64, ◌==◌,
  ==_iff, sum_by, if◌then◌else◌,
}
use atree.Errors.{ok, err, new_key_not_found_error}
use atree.Storage.Interface.{SlabStorage}
use atree.Map.Slab.{
  SingleElement, single_element, inline_collision_group, Elements, HkeyElements, hkey_elements,
  single_elements, cons, nil, Slab,
}
use atree.Map.Client.{Client, Digester, IsLawfulClient}
use atree.Map.Hkey.{Place, place_in, with_new, without, sized, with_updated}
use atree.Map.Hkey.Slabs.{
  split_elements, merge_elements, lend_elements, borrow_elements, elements_can_lend_right,
  elements_can_lend_left, elements_can_lend, least_lender_size,
}
use atree.Array.Data.Rebalance.{can_lend_loop}
use atree.Map.Hkey.Shape.{AreSorted, IsHkeyElements}
use atree.Map.Hkey.Search.{IsPlace, place_in_lem}
use atree.Map.Hkey.Update.{
  with_new-IsHkeyElements, with_updated-IsHkeyElements, without-IsHkeyElements,
}
use atree.Map.Hkey.Cut.{Cuts, split_elements-Cuts, merge_elements-split_elements}
use atree.Map.Hkey.Shares.{Shares}
use atree.Map.Hkey.Lend.{lend_elements-Shares}
use atree.Map.Hkey.Borrow.{borrow_elements-Shares}
use atree.Map.Hkey.Join.{merge_elements-IsHkeyElements}
use atree.Map.Element.{MetaSlabs, elements_get}
use atree.Map.Lookup.{IsOrdered, IsSearchable, key_digest, lookup, scan, look_element, look_singles}
use atree.Map.Lookup.Singles.{found}
use atree.Map.Lookup.Stores.{Stores}
use atree.Map.Lookup.Get.{elements_get-lookup}
use atree.Map.Lookup.Update.{elements_set-Stores}
use atree.Map.Lookup.RoundTrip.{got, was_set, elements_get-elements_set}
use atree.Tests.Objects.{id_of, small_settings, small_settings-IsSettings}

abbrev itself : ℕ → ℕ
itself n = n

abbrev group : List ℕ → List ℕ → HkeyElements ℕ
group hkeys elems = record {
  hkeys = hkeys;
  elems = elems;
  size = 8 + sum_by (sized itself) elems;
  level = 0;
}

abbrev three : HkeyElements ℕ
three = group (3 ∷ 5 ∷ 9 ∷ []) (60 ∷ 70 ∷ 80 ∷ [])

abbrev rich : HkeyElements ℕ
rich = group (3 ∷ 5 ∷ 9 ∷ []) (100 ∷ 100 ∷ 100 ∷ [])

abbrev short : HkeyElements ℕ
short = group (12 ∷ []) (50 ∷ [])

abbrev poor : HkeyElements ℕ
poor = group (1 ∷ []) (50 ∷ [])

sorted_three : AreSorted (3 ∷ 5 ∷ 9 ∷ [])
sorted_three = omega arith

three-IsHkeyElements : IsHkeyElements itself three
unfolding add32
three-IsHkeyElements = omega arith

rich-IsHkeyElements : IsHkeyElements itself rich
unfolding add32
rich-IsHkeyElements = omega arith

short-IsHkeyElements : IsHkeyElements itself short
unfolding add32
short-IsHkeyElements = omega arith

poor-IsHkeyElements : IsHkeyElements itself poor
unfolding add32
poor-IsHkeyElements = omega arith

place_in_lem_example :
    (p : Place) × (place_in (3 ∷ 5 ∷ 9 ∷ []) 7 ≡ ok p) × IsPlace (3 ∷ 5 ∷ 9 ∷ []) 7 p
place_in_lem_example = place_in_lem (3 ∷ 5 ∷ 9 ∷ []) 7 sorted_three

with_new-IsHkeyElements_example : IsHkeyElements itself (with_new itself three 2 7 90)
unfolding add32
with_new-IsHkeyElements_example =
    with_new-IsHkeyElements itself three three-IsHkeyElements 2 7 90 (omega arith) (omega arith)

with_updated-IsHkeyElements_example : IsHkeyElements itself (with_updated itself three 1 90)
unfolding add32
with_updated-IsHkeyElements_example =
    with_updated-IsHkeyElements itself three three-IsHkeyElements 1 90 (omega arith)

without-IsHkeyElements_example : IsHkeyElements itself (without itself three 1 70)
without-IsHkeyElements_example = without-IsHkeyElements itself three three-IsHkeyElements 1 70 refl

split_elements-Cuts_example :
    Cuts itself 108 rich (split_elements itself rich).0 (split_elements itself rich).1
unfolding add32
split_elements-Cuts_example =
    split_elements-Cuts itself 108 rich rich-IsHkeyElements (omega arith) (omega arith)

merge_elements-split_elements_example :
    merge_elements (split_elements itself rich).0 (split_elements itself rich).1 ≡ rich
unfolding add32
merge_elements-split_elements_example =
    merge_elements-split_elements itself 108 rich rich-IsHkeyElements (omega arith) (omega arith)

merge_elements-IsHkeyElements_example : IsHkeyElements itself (merge_elements three short)
unfolding add32
merge_elements-IsHkeyElements_example =
    merge_elements-IsHkeyElements itself three short three-IsHkeyElements short-IsHkeyElements
      (omega arith) (omega arith)

lend_elements-Shares_example :
    (l r : HkeyElements ℕ) × (lend_elements itself small_settings rich short ≡ ok (l, r))
    × Shares itself small_settings rich short l r
unfolding add32 sub32 sub64 elements_can_lend_right elements_can_lend least_lender_size
    can_lend_loop
lend_elements-Shares_example =
    lend_elements-Shares itself small_settings small_settings-IsSettings rich short 44 115
      rich-IsHkeyElements short-IsHkeyElements (omega arith) refl (omega arith) (omega arith)
      (omega arith) (omega arith) refl

borrow_elements-Shares_example :
    (l r : HkeyElements ℕ) × (borrow_elements itself small_settings poor rich ≡ ok (l, r))
    × Shares itself small_settings poor rich l r
unfolding add32 sub32 sub64 elements_can_lend_left elements_can_lend least_lender_size can_lend_loop
borrow_elements-Shares_example =
    borrow_elements-Shares itself small_settings small_settings-IsSettings poor rich 44 115
      poor-IsHkeyElements rich-IsHkeyElements (omega arith) refl (omega arith) (omega arith)
      (omega arith) (omega arith) refl

-- A client whose values are numbers, and their own storables, of one byte each.
abbrev digester_of : ℕ → Digester
digester_of v = record { levels = 2; digest = λ level. (if level == 0 then 0 else v % 2, none) }

abbrev numbers : Client ℕ (Unit {0}) ℕ
numbers = record {
  byte_size = λ v. 1;
  storable = λ address limit v s. (ok v, s);
  stored_value = λ v s. (ok v, s);
  comparator = λ v w s. (ok (v == w), s);
  digester = λ v. ok (digester_of v);
}

abbrev lawful : IsLawfulClient numbers
lawful = record {
  value_of = λ v. v;
  storable_of = λ address limit v. v;
  equal = λ v w. v == w;
  equal_iff = ==_iff;
  storable-ok = λ address limit v s. refl;
  value_of-storable_of = λ address limit v. refl;
  stored_value-ok = λ v s. refl;
  comparator-ok = λ v w s. refl;
  levels = 2;
  digester_of = digester_of;
  digester-ok = λ v. refl;
  levels-digester_of = λ v. refl;
  digest-ok = λ v level h. refl;
}

-- Nothing is stored in slabs here.
abbrev no_slabs : SlabStorage (Unit {0}) (Slab ℕ (Unit {0}) (Unit {0}) (Unit {0}))
no_slabs = record {
  store = λ id slab s. (ok tt, s);
  retrieve = λ id s. (ok none, s);
  remove = λ id s. (ok tt, s);
  generate_slab_id = λ address s. (ok (id_of 0 1), s);
}

abbrev no_nodes : MetaSlabs ℕ (Unit {0}) ℕ (Unit {0})
no_nodes = record {
  get = λ m d level hkey key s. (err new_key_not_found_error, s);
  set = λ m d level hkey key value s. (err new_key_not_found_error, s);
}

abbrev single : ℕ → ℕ → SingleElement ℕ
single key value = record { key = key; value = value; size = 3 }

-- The even keys 2 and 4 collide at the second level too.
abbrev collisions : Elements ℕ
collisions =
    hkey_elements (0 ∷ 1 ∷ [])
      (cons
        (inline_collision_group (
          single_elements
            (record { elems = single 2 20 ∷ single 4 40 ∷ []; size = 12; level = 2 })))
        (cons (single_element (single 1 10)) nil))
      41 1

collisions-IsOrdered : IsOrdered 1 collisions
collisions-IsOrdered = (((omega arith, tt), (tt, tt)), refl, omega arith, (refl, (tt, tt)))

-- The elements of a leaf, where all keys have the same digest.
abbrev crowded : Elements ℕ
crowded = hkey_elements (0 ∷ []) (cons (inline_collision_group collisions) nil) 59 0

crowded-IsSearchable : IsSearchable 2 crowded
crowded-IsSearchable =
    ((tt, tt), refl, ((((omega arith, tt), (tt, tt)), refl, (refl, (tt, tt))), tt))

elements_get-lookup_example :
    (elements_get numbers no_slabs no_nodes 2
      (digester_of 4)
      0
      (key_digest numbers lawful 4 0)
      4
      crowded
      tt).0
    ≡ found (lookup numbers lawful 2 0 4 crowded)
elements_get-lookup_example =
    elements_get-lookup numbers lawful no_slabs no_nodes 2 0 4 crowded tt refl crowded-IsSearchable

lookup_tests :
    (lookup numbers lawful 1 1 4 collisions ≡ some (4, 40))
    × (lookup numbers lawful 1 1 6 collisions ≡ none)
unfolding lookup scan key_digest look_element look_singles
lookup_tests = (refl, refl)

-- Key 3 collides with key 1, which gets a group with it.
elements_set-Stores_example :
    (r : Elements ℕ × ℕ × Option ℕ) × ((s : Unit {0})
      → was_set numbers lawful small_settings no_slabs no_nodes
          (id_of 0 1).address
          255
          3
          30
          1
          1
          collisions
          s
        ≡ ok r)
    × (IsOrdered 1 r.0
        × Stores lawful 3 30
            (λ q. lookup numbers lawful 1 1 q collisions)
            (λ q. lookup numbers lawful 1 1 q r.0)
            r.1
            r.2)
elements_set-Stores_example =
    elements_set-Stores numbers lawful small_settings no_slabs no_nodes (id_of 0 1).address 255 3 30
      1 1 collisions refl (omega arith) collisions-IsOrdered

elements_get-elements_set_example :
    (r : Elements ℕ × ℕ × Option ℕ) × ((s : Unit {0})
      → was_set numbers lawful small_settings no_slabs no_nodes
          (id_of 0 1).address
          255
          3
          30
          1
          1
          collisions
          s
        ≡ ok r)
    × ((v : ℕ) × ((s : Unit {0})
          → got numbers lawful small_settings no_slabs no_nodes
              (id_of 0 1).address
              255
              3
              30
              1
              1
              collisions
              3
              r.0
              s
            ≡ ok (r.1, v))
        × (v ≡ 30))
    × ((key' : ℕ) (s : Unit {0})
        → 3 ≢ key'
        → got numbers lawful small_settings no_slabs no_nodes
            (id_of 0 1).address
            255
            3
            30
            1
            1
            collisions
            key'
            r.0
            s
          ≡ got numbers lawful small_settings no_slabs no_nodes
              (id_of 0 1).address
              255
              3
              30
              1
              1
              collisions
              key'
              collisions
              s)
elements_get-elements_set_example =
    elements_get-elements_set numbers lawful small_settings no_slabs no_nodes (id_of 0 1).address
      255 3 30 1 1 collisions refl (omega arith) collisions-IsOrdered

elements_get_enough_example :
    elements_get numbers no_slabs no_nodes 1 (digester_of 4) 1
    ≡ elements_get numbers no_slabs no_nodes 7 (digester_of 4) 1
elements_get_enough_example =
    elements_get_enough numbers no_slabs no_nodes (digester_of 4) 1 7 1 (omega arith) (omega arith)
