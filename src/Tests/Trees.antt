-- ===== src/Tests/Trees.antt =====
-- An array of two leaves below an inner node, in a basic storage. The elements are numbers that
-- stand for their own sizes, under a threshold of 256 bytes.
use mathlib.Core.Path.{subst}
use atree.Prelude.{
  ℕ, zero, suc, ◌+◌, ◌*◌, ◌≡◌, ◌≤◌, ◌<◌, ◌∙◌, ap, sym, refl, arith, List, [], ◌∷◌, Option, none,
  some, Bool, true, false, ◌||◌, ◌&&◌, length, add32, sum_by, Bool-cases, inl, inr, insert_at,
  get_elem?,
}
use atree.Bytes.{Bytes8, Bytes8_eq, be_uint64}
use atree.Ids.{SlabId, SlabId_eq, SlabId_eq_iff}
use atree.SlabId.{index_as_uint64}
use atree.Errors.{ok}
use atree.Action.{Action, pure}
use atree.GoMap
use atree.Storage.Interface.{IsLawfulStorage}
use atree.Storage.Basic.{BasicSlabStorage, slab_storage, last_index}
use atree.Storage.Basic.Laws.{basic_view, slab_storage-IsLawfulStorage}
use atree.Array.Slab.{ArrayDataSlab, ArrayMetaDataSlab, Slab, data_slab, meta_slab}
use atree.Array.Data.{get_prefix_size}
use atree.Array.Data.Update.{IsDataSlab}
use atree.Array.Meta.{count_sums}
use atree.Array.Tree.{ArraySlab, leaf, node, header_of, slab_of, is_inlined, extra_data_of}
use atree.Array.Ops.{get, get_array_data_slab_with_index, insert_in_slab}
use atree.Array.Ops.Under.{Footprint, IsUnder, id-outside}
use atree.Array.Ops.Step.{Keeps}
use atree.Array.Ops.Read.{element_at, get_lem, get_array_data_slab_with_index_lem}
use atree.Array.Ops.Settle.{Stands}
use atree.Array.Ops.Inserted.{insert_in_slab_lem}
use atree.Tests.Objects.{id_of, small_settings, small_settings-IsSettings}

abbrev pub Store : Type 0
Store = BasicSlabStorage (Slab ℕ (Unit {0}) (Unit {0}))

abbrev pub itself : ℕ → ℕ
itself n = n

abbrev leaf_of : ℕ → ℕ → List ℕ → ArrayDataSlab ℕ (Unit {0})
leaf_of index next es = record {
  next = id_of 1 next;
  header = record { slab_id = id_of 1 index; size = 21 + sum_by itself es; count = length es };
  elements = es;
  extra_data = none;
  inlined = false;
}

abbrev first : ArrayDataSlab ℕ (Unit {0})
first = leaf_of 2 3 (100 ∷ 100 ∷ 100 ∷ [])

abbrev second : ArrayDataSlab ℕ (Unit {0})
second = leaf_of 3 0 (50 ∷ 90 ∷ [])

abbrev pub top : ArrayMetaDataSlab (Unit {0})
top = record {
  header = record { slab_id = id_of 1 1; size = 40; count = 5 };
  children_headers = first.header ∷ second.header ∷ [];
  children_count_sum = 3 ∷ 5 ∷ [];
  extra_data = some tt;
}

abbrev pub start : Store
start = record {
  slabs =
      (id_of 1 1, meta_slab top)
      ∷ (id_of 1 2, data_slab first)
      ∷ (id_of 1 3, data_slab second)
      ∷ [];
  slab_index = ((id_of 1 0).address, (id_of 1 3).index) ∷ [];
}

abbrev pub whole : List ℕ
whole = 100 ∷ 100 ∷ 100 ∷ 50 ∷ 90 ∷ []

abbrev below : Footprint
below j = SlabId_eq (id_of 1 2) j || SlabId_eq (id_of 1 3) j

abbrev pub all_ids : Footprint
all_ids j = SlabId_eq (id_of 1 1) j || below j

-- A value is its own storable.
abbrev pub plain : Bytes8 → ℕ → ℕ → Action Store ℕ
plain address limit value = pure value

get_runs : (get itself small_settings slab_storage plain 2 (node top) 3 start).0 ≡ ok 50
unfolding get slab_storage atree.Array.Meta.child_slab_index_info atree.Array.Tree.get_array_slab
    atree.Errors.wrap_result atree.Storage.Basic.retrieve GoMap.lookup SlabId_eq Bytes8_eq
    atree.Array.Tree.as_array_slab atree.Array.Data.get atree.Prelude.sub64 atree.Prelude.add64
get_runs = refl

pub start-IsUnder :
    IsUnder itself small_settings basic_view (id_of 1 0).address start 1 (node top) whole all_ids
unfolding IsUnder count_sums add32 SlabId_eq Bytes8_eq GoMap.lookup slab_of header_of is_inlined
    extra_data_of get_prefix_size
start-IsUnder = (
  record { sized = refl; counted = refl; summed = refl; fits = omega arith; few = omega arith },
  below,
  λ j. refl,
  refl,
  (
    100 ∷ 100 ∷ 100 ∷ [],
    50 ∷ 90 ∷ [],
    SlabId_eq (id_of 1 2),
    SlabId_eq (id_of 1 3),
    record {
      child = leaf first;
      stored = refl;
      headed = refl;
      filled = omega arith;
      small = omega arith;
      inner = refl;
      apart = refl;
      placed = refl;
      below = (omega arith, refl, omega arith, λ j. refl);
    },
    (
      50 ∷ 90 ∷ [],
      [],
      SlabId_eq (id_of 1 3),
      λ _. false,
      record {
        child = leaf second;
        stored = refl;
        headed = refl;
        filled = omega arith;
        small = omega arith;
        inner = refl;
        apart = refl;
        placed = refl;
        below = (omega arith, refl, omega arith, λ j. refl);
      },
      (refl, λ _. refl),
      refl,
      record { all = λ i. ground arith; apart = λ i. ground arith },
    ),
    refl,
    record { all = λ i. refl; apart = λ i. id-outside (id_of 1 2) (SlabId_eq (id_of 1 3)) refl i },
  ),
)

used_if :
    (k j : SlabId)
    → SlabId_eq k j ≡ true
    → basic_view.used start k ≡ true
    → basic_view.used start j ≡ true
used_if k j same u = subst (λ i. basic_view.used start i ≡ true) ((SlabId_eq_iff k j).0 same) u

pub start-used : (j : SlabId) → all_ids j ≡ true → basic_view.used start j ≡ true
unfolding last_index Bytes8_eq be_uint64 index_as_uint64
start-used j h = elim (Bool-cases (SlabId_eq (id_of 1 1) j)) [
  | inl one ↦ used_if (id_of 1 1) j one refl
  | inr not_one ↦ elim (Bool-cases (SlabId_eq (id_of 1 2) j)) [
    | inl two ↦ used_if (id_of 1 2) j two refl
    | inr not_two ↦ used_if (id_of 1 3) j (ground arith) refl
  ]
]

abbrev pub lawful : IsLawfulStorage (slab_storage {Slab = Slab ℕ (Unit {0}) (Unit {0})}) basic_view
lawful = slab_storage-IsLawfulStorage

slab_storage-IsLawfulStorage_example : IsLawfulStorage (slab_storage {Slab = ℕ}) basic_view
slab_storage-IsLawfulStorage_example = slab_storage-IsLawfulStorage {Slab = ℕ}

get_lem_example :
    (s' : Store) × (get itself small_settings slab_storage plain 2 (node top) 3 start
      ≡ (element_at whole 3, s'))
    × Keeps itself small_settings slab_storage basic_view lawful (id_of 1 0).address start s'
get_lem_example =
    get_lem itself small_settings slab_storage plain basic_view lawful (id_of 1 0).address 2 1 start
      (node top) whole all_ids 3 (omega arith) start-IsUnder

get_array_data_slab_with_index_lem_example :
    (a : ArrayDataSlab ℕ (Unit {0})) × (i : ℕ) × (s' : Store) × (get_array_data_slab_with_index
        itself small_settings slab_storage plain 2
        (node top)
        4
        start
      ≡ (ok (a, i), s'))
    × (get_elem? a.elements i ≡ get_elem? whole 4)
    × IsDataSlab itself a
    × Keeps itself small_settings slab_storage basic_view lawful (id_of 1 0).address start s'
get_array_data_slab_with_index_lem_example =
    get_array_data_slab_with_index_lem itself small_settings slab_storage plain basic_view lawful
      (id_of 1 0).address 2 1 start (node top) whole all_ids 4 (omega arith) start-IsUnder
      (omega arith)

abbrev pub root : ArraySlab ℕ (Unit {0})
root = node top

pub root-apart : is_inlined root ≡ false
unfolding is_inlined
root-apart = refl

pub root-small : (header_of root).size ≤ small_settings.max_threshold
unfolding header_of
root-small = omega arith

start-room : 1 ≤ basic_view.room start (id_of 1 0).address
unfolding last_index Bytes8_eq be_uint64
start-room = omega arith

insert_in_slab_lem_example :
    (slab' : ArraySlab ℕ (Unit {0})) × (s' : Store) × (insert_in_slab itself small_settings
        slab_storage plain 2 root
        (id_of 1 0).address
        1
        110
        start
      ≡ (ok slab', s'))
    × Stands itself small_settings basic_view
        (id_of 1 0).address
        1
        1
        start
        s'
        (header_of root).slab_id
        (extra_data_of root)
        slab'
        (insert_at whole 1 110)
        all_ids
insert_in_slab_lem_example =
    insert_in_slab_lem itself small_settings slab_storage plain basic_view lawful
      (id_of 1 0).address small_settings-IsSettings 110 110 (omega arith) (omega arith) (λ t. refl)
      2 1 start root whole all_ids 1 (omega arith) start-IsUnder start-used root-apart root-small
      (inr (omega arith)) (omega arith) (omega arith) start-room
