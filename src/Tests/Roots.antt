-- ===== src/Tests/Roots.antt =====
-- Arrays in a basic storage: the one of Tests/Trees, and new ones.
use atree.Prelude.{
  ℕ, ◌+◌, ◌≡◌, ◌≤◌, ◌<◌, refl, arith, List, [], ◌∷◌, ◌++◌, Option, none, some, false, inr,
  insert_at,
}
use atree.Bytes.{Bytes8_eq, be_uint64}
use atree.SlabId.{ValueId, slab_id_to_value_id}
use atree.Errors.{ok}
use atree.Action.{Action, pure}
use atree.Storage.Basic.{slab_storage, last_index}
use atree.Storage.Basic.Laws.{basic_view}
use atree.Array.Tree.{header_of, slab_of, extra_data_of}
use atree.Array.Ops.Under.{Footprint}
use atree.Array.Ops.Grows.{Grows}
use atree.Array.Root.{Array, insert_value, append, new_array, increment_entries}
use atree.Array.Root.Insert.{IsArray, insert_value_lem}
use atree.Array.Root.Create.{append_lem, new_array_lem}
use atree.Array.Root.Index.{moved_up, increment_entries_lem}
use atree.Tests.Objects.{id_of, small_settings, small_settings-IsSettings}
use atree.Tests.Trees.{
  Store, itself, start, whole, all_ids, plain, root, lawful, start-IsUnder, start-used, root-apart,
  root-small,
}

abbrev Numbers : Type 0
Numbers = Array ℕ (Unit {0}) Store

-- Numbers are not mutable, and each is stored as itself.
abbrev no_id : ℕ → Option ValueId
no_id n = none

abbrev stored : ℕ → Action Store ℕ
stored n = pure n

abbrev numbers : Numbers
numbers = record { root = root; parent_updater = none; mutable_element_index = [] }

abbrev IsNumbers : Store → ℕ → Numbers → List ℕ → Footprint → Type 0
IsNumbers s d a xs f =
    IsArray itself small_settings slab_storage plain no_id stored basic_view lawful
      (id_of 1 0).address s d a tt xs f

numbers-IsNumbers : IsNumbers start 1 numbers whole all_ids
unfolding header_of extra_data_of
numbers-IsNumbers = record {
  under = start-IsUnder;
  used = start-used;
  placed = refl;
  extra = refl;
  apart = root-apart;
  small = root-small;
  some_elements = inr (omega arith);
  no_parent = refl;
  below = tt;
}

room : 3 ≤ basic_view.room start (id_of 1 0).address
unfolding last_index Bytes8_eq be_uint64
room = omega arith

insert_value_lem_example :
    (a' : Numbers) × (d' : ℕ) × (s' : Store) × (f' : Footprint) × (insert_value itself
        small_settings slab_storage plain no_id stored 2 numbers 1 110 start
      ≡ (ok a', s'))
    × IsNumbers s' d' a' (insert_at whole 1 110) f'
    × (basic_view.held s' (header_of root).slab_id ≡ ok (some (slab_of a'.root)))
    × ((header_of a'.root).slab_id ≡ (header_of root).slab_id)
    × Grows basic_view (id_of 1 0).address 3 start s' all_ids f'
    × (d' ≤ 2)
insert_value_lem_example =
    insert_value_lem itself small_settings slab_storage plain no_id stored basic_view lawful
      (id_of 1 0).address small_settings-IsSettings 110 110 (omega arith) (omega arith) (λ t. refl)
      2 1 start numbers tt whole all_ids 1 numbers-IsNumbers (omega arith) (omega arith)
      (omega arith) room

append_lem_example :
    (a' : Numbers) × (d' : ℕ) × (s' : Store) × (f' : Footprint) × (append itself small_settings
        slab_storage plain no_id stored 2 numbers 110 start
      ≡ (ok a', s'))
    × IsNumbers s' d' a' (whole ++ 110 ∷ []) f'
    × (d' ≤ 2)
append_lem_example =
    append_lem itself small_settings slab_storage plain no_id stored basic_view lawful
      (id_of 1 0).address small_settings-IsSettings 110 110 (omega arith) (omega arith) (λ t. refl)
      2 1 start numbers tt whole all_ids numbers-IsNumbers (omega arith) (omega arith) room

some_room : 0 < basic_view.room start (id_of 1 0).address
unfolding last_index Bytes8_eq be_uint64
some_room = omega arith

new_array_lem_example :
    (a : Numbers) × (s' : Store) × (f : Footprint) × (new_array itself small_settings slab_storage
        plain no_id stored
        (id_of 1 0).address
        tt
        start
      ≡ (ok a, s'))
    × IsNumbers s' 0 a [] f
    × (basic_view.held s' (header_of a.root).slab_id ≡ ok (some (slab_of a.root)))
    × Grows basic_view (id_of 1 0).address 1 start s' (λ _. false) f
new_array_lem_example =
    new_array_lem itself small_settings slab_storage plain no_id stored basic_view lawful
      (id_of 1 0).address start tt small_settings-IsSettings some_room

abbrev positions : List (ValueId × ℕ)
positions = (slab_id_to_value_id (id_of 1 7), 1) ∷ (slab_id_to_value_id (id_of 1 8), 3) ∷ []

increment_entries_lem_run : increment_entries (4 + 1) 2 positions ≡ ok (moved_up 2 positions)
increment_entries_lem_run = increment_entries_lem 4 2 positions (omega arith) (omega arith)
