-- ===== src/Map/Element.antt =====
-- The element and elements interfaces of maps (map_element.go, map_elements.go): sizes, the slabs of
-- external collision groups, and Get. An element calls the elements of the next level through
-- `down`; the fuel counts the levels that are left.
pub mod Insert
pub mod Remove
pub mod Fuel
use atree.Prelude.{
  ℕ, zero, suc, ◌+◌, ◌-◌, ◌%◌, ◌≡◌, ◌⊎◌, inl, inr, Bool, true, false, Option, none, some, List, [],
  ◌∷◌, ltb, leb, if◌then◌else◌, length, get_elem?, add32, u32_mod,
}
use atree.Bytes.{Bytes8}
use atree.Ids.{SlabId}
use atree.Errors.{
  Result, ok, err, panic, new_key_not_found_error, new_hash_level_error, new_slab_not_found_error,
  new_slab_data_error,
}
use atree.Action.{Action, pure, raise, lift, ◌>>=◌}
use atree.Storage.Interface.{SlabStorage, wrapped}
use atree.Settings.{
  Settings, inline_collision_group_prefix_size, map_data_slab_prefix_size,
  map_root_data_slab_prefix_size, inlined_map_data_slab_prefix_size,
}
use atree.Map.Slab.{
  Element, single_element, inline_collision_group, external_collision_group, Elements,
  hkey_elements, single_elements, to_list, hkey_of, MapDataSlab, Slab, data_slab, meta_slab, other,
}
use atree.Map.Client.{Client, Digester}
use atree.Map.Hkey.{find, first_key}
use atree.Map.Single.{single_get, get_single}

module _ {E : Type 0} where
  unfoldable pub elements_size : Elements E → ℕ
  elements_size (hkey_elements hkeys elems size level) = size
  elements_size (single_elements g) = g.size

  unfoldable pub elements_count : Elements E → ℕ
  elements_count (hkey_elements hkeys elems size level) = length (to_list elems) % u32_mod
  elements_count (single_elements g) = length g.elems % u32_mod

  unfoldable pub elements_first_key : Elements E → ℕ
  unfolding first_key
  elements_first_key (hkey_elements hkeys elems size level) =
      first_key (hkey_of hkeys elems size level)
  elements_first_key (single_elements g) = 0

  unfoldable pub element_size : Element E → ℕ
  unfolding elements_size
  element_size (single_element e) = e.size
  element_size (inline_collision_group g) =
      add32 inline_collision_group_prefix_size (elements_size g)
  element_size (external_collision_group slab_id size) = size

  unfoldable pub map_prefix_size : {X : Type 0} → MapDataSlab E X → ℕ
  map_prefix_size m = if m.inlined then inlined_map_data_slab_prefix_size else elim m.extra_data [
    | some _ ↦ map_root_data_slab_prefix_size
    | none ↦ map_data_slab_prefix_size
  ]

  -- The header of a leaf after its elements have changed.
  unfoldable pub with_elements : {X : Type 0} → MapDataSlab E X → Elements E → MapDataSlab E X
  unfolding elements_first_key map_prefix_size elements_size
  with_elements m g = record m {
    elements = g;
    header = record (m.header) {
      first_key = elements_first_key g;
      size = add32 (map_prefix_size m) (elements_size g);
    };
  }

-- Groups increment the level.
abbrev pub next_level : {S A : Type 0} → Digester → ℕ → (ℕ → Action S A) → Action S A
next_level d level action =
    if ltb d.levels (level + 1) then raise new_hash_level_error else action (level + 1)

-- hkeyElements work below the number of levels.
abbrev pub below_levels : {S A : Type 0} → Digester → ℕ → Action S A → Action S A
below_levels d level action = if leb d.levels level then raise new_hash_level_error else action

-- An index of a slice that is out of range is a panic.
abbrev pub or_panic : {S A T : Type 0} → Option T → (T → Action S A) → Action S A
or_panic none action = lift panic
or_panic (some t) action = action t

-- The methods of MapMetaDataSlab, for a group whose slab is one; MapMetaDataSlab is not modelled.
pub record MetaSlabs (E S V M : Type 0) : Type 0 where
  pub get : M → Digester → ℕ → ℕ → V → Action S (E × E)
  pub set : M → Digester → ℕ → ℕ → V → V → Action S (E × Option E)

module _ {E X M O S : Type 0} (storage : SlabStorage S (Slab E X M O)) where
  -- `getMapSlab`
  unfoldable pub get_map_slab : SlabId → Action S (MapDataSlab E X ⊎ M)
  get_map_slab id = do
    found ← wrapped (storage.retrieve id)
    elim found [
      | none ↦ raise (new_slab_not_found_error id)
      | some slab ↦ elim slab [
        | data_slab m ↦ pure (inl m)
        | meta_slab m ↦ pure (inr m)
        | other _ ↦ raise new_slab_data_error
      ]
    ]

  -- The slab of an external group where it has to be a leaf, in Elements and Remove.
  unfoldable pub get_group_slab : SlabId → Action S (MapDataSlab E X)
  unfolding get_map_slab
  get_group_slab id = do
    slab ← get_map_slab id
    elim slab [ inl m ↦ pure m | inr _ ↦ raise new_slab_data_error ]

  unfoldable pub element_count : Element E → Action S ℕ
  unfolding elements_count get_group_slab
  element_count (single_element e) = pure 1
  element_count (inline_collision_group g) = pure (elements_count g)
  element_count (external_collision_group slab_id size) = do
    m ← get_group_slab slab_id
    pure (elements_count m.elements)

module _ {E X M O S V : Type 0} (client : Client E S V) (storage : SlabStorage S (Slab E X M O))
    (meta : MetaSlabs E S V M) where
  abbrev pub Getter : Type 0
  Getter = Digester → ℕ → ℕ → V → Elements E → Action S (E × E)

  -- Get of an external group.
  unfoldable pub external_get : Getter → Digester → ℕ → V → SlabId → Action S (E × E)
  unfolding get_map_slab
  external_get down d level key slab_id = do
    slab ← get_map_slab storage slab_id
    next_level d level (λ l. elim slab [
      | inl m ↦ down d l (d.digest l).0 key m.elements
      | inr m ↦ meta.get m d l (d.digest l).0 key
    ])

  unfoldable pub element_get : Getter → Digester → ℕ → V → Element E → Action S (E × E)
  unfolding external_get single_get
  element_get down d level key (single_element e) = single_get client e key
  element_get down d level key (inline_collision_group g) =
      next_level d level (λ l. down d l (d.digest l).0 key g)
  element_get down d level key (external_collision_group slab_id size) =
      external_get down d level key slab_id

  unfoldable pub get_in :
      Getter → Digester → ℕ → ℕ → V → List ℕ → List (Element E) → Action S (E × E)
  unfolding find element_get
  get_in down d level hkey key hkeys elems = do
    found ← lift (find hkeys hkey)
    elim (found.0) [
      | none ↦ raise new_key_not_found_error
      | some i ↦ or_panic (get_elem? elems i) (element_get down d level key)
    ]

  unfoldable pub elements_get : ℕ → Getter
  unfolding get_in get_single
  elements_get fuel d level hkey key (single_elements g) = do
    r ← get_single client d level key g
    pure (r.0, r.1)
  elements_get zero d level hkey key (hkey_elements hkeys elems size l) =
      below_levels d level (lift panic)
  elements_get (suc fuel) d level hkey key (hkey_elements hkeys elems size l) =
      below_levels d level (get_in (elements_get fuel) d level hkey key hkeys (to_list elems))
