-- ===== src/Map/Element/Insert.antt =====
-- Set of map elements (map_element.go, map_elements_hashkey.go) and of the leaf that an external group
-- keeps its elements in (map_data_slab.go).
use atree.Prelude.{
  ℕ, zero, suc, ◌+◌, ◌%◌, ◌⊎◌, inl, inr, true, false, not, ◌&&◌, Option, none, some, ltb, leb, ◌==◌,
  if◌then◌else◌, get_elem?, add32, sub32, u32_mod,
}
use atree.Bytes.{Bytes8}
use atree.Ids.{SlabId, slab_id_undefined}
use atree.Errors.{
  Result, ok, err, panic, user, key_not_found, new_collision_limit_error,
  new_map_element_count_error, wrap_result,
}
use atree.Action.{Action, pure, raise, lift, ◌>>=◌, ◌>>◌}
use atree.Storage.Interface.{SlabStorage, wrapped}
use atree.Settings.{Settings, external_collision_group_prefix_size, map_data_slab_prefix_size}
use atree.Map.Slab.{
  Element, single_element, inline_collision_group, external_collision_group, Elements,
  SingleElement, HkeyElements, hkey_elements, single_elements, hkey_of, of_hkey, MapDataSlab, Slab,
  data_slab,
}
use atree.Map.Client.{Client, Digester, digest_at}
use atree.Map.Hkey.{
  place_in, at_equal, at_new, new_hkey_elements_with_element, with_new, with_updated,
}
use atree.Map.Single.{new_single_element, overwritten, new_single_elements_with_element, set_single}
use atree.Map.Element.{
  elements_size, elements_first_key, element_size, with_elements, next_level, below_levels,
  or_panic, MetaSlabs, get_map_slab, element_count, Getter, element_get, elements_get,
}

-- The slab of a new external group.
unfoldable pub exported : {E X : Type 0} → SlabId → Elements E → MapDataSlab E X
unfolding elements_size elements_first_key
exported id g = record {
  next = slab_id_undefined;
  header = record {
    slab_id = id;
    size = add32 map_data_slab_prefix_size (elements_size g);
    first_key = elements_first_key g;
  };
  elements = g;
  extra_data = none;
  any_size = true;
  collision_group = true;
  inlined = false;
}

module _ {E X M O S V : Type 0} (client : Client E S V) (c : Settings)
    (storage : SlabStorage S (Slab E X M O)) (meta : MetaSlabs E S V M) where
  abbrev pub Setter : Type 0
  Setter = Bytes8 → Digester → ℕ → ℕ → V → V → Elements E → Action S (Elements E × E × Option E)

  -- The size of a SlabIDStorable is 2 + 1 + 16.
  unfoldable pub export_group : Bytes8 → Elements E → Action S (Element E)
  unfolding exported
  export_group address g = do
    id ← wrapped (storage.generate_slab_id address)
    wrapped (storage.store id (data_slab (exported id g)))
    pure (external_collision_group id (external_collision_group_prefix_size + (2 + 1 + 16)))

  unfoldable pub close_group : Bytes8 → ℕ → Elements E → Action S (Element E)
  unfolding export_group element_size
  close_group address level g =
      if level == 1
        && ltb (c.max_inline_map_element_size % u32_mod) (element_size (inline_collision_group g))
      then export_group address g
      else pure (inline_collision_group g)

  unfoldable pub group_set :
      Setter → Bytes8 → Digester → ℕ → V → V → Elements E → Action S (Element E × E × Option E)
  unfolding close_group
  group_set down address d level key value g = next_level d level (λ l. do
    r ← down address d l (d.digest l).0 key value g
    e ← close_group address l (r.0)
    pure (e, r.1, r.2))

  -- `existing` gets a group of its own, which the new key goes into.
  unfoldable pub collide :
      Setter → Bytes8 → Digester → ℕ → V → V → SingleElement E → Action S (Element E × E × Option E)
  unfolding group_set new_single_elements_with_element new_hkey_elements_with_element digest_at
  collide down address d level key value existing =
      if (level + 1) == d.levels
      then group_set down address d level key value
          (single_elements (new_single_elements_with_element (level + 1) existing))
      else do
        kv ← wrapped (client.stored_value existing.key)
        existing_digester ← lift (wrap_result (client.digester kv))
        hkey ← lift (wrap_result (digest_at existing_digester (level + 1)))
        group_set down address d level key value (
            of_hkey (
              new_hkey_elements_with_element element_size (level + 1) hkey
                (single_element existing)))

  -- `MapDataSlab.Set`
  unfoldable pub leaf_set :
      Setter
      → Digester
      → ℕ
      → ℕ
      → V
      → V
      → MapDataSlab E X
      → Action S (MapDataSlab E X × E × Option E)
  unfolding with_elements
  leaf_set down d level hkey key value m = do
    r ← down m.header.slab_id.address d level hkey key value m.elements
    let m' = with_elements m (r.0)
    if m.inlined then pure tt else wrapped (storage.store m'.header.slab_id (data_slab m'))
    pure (m', r.1, r.2)

  -- Set of the slab of an external group.
  unfoldable pub slab_set :
      Setter → Digester → ℕ → ℕ → V → V → MapDataSlab E X ⊎ M → Action S (E × Option E)
  unfolding leaf_set
  slab_set down d level hkey key value (inl m) = do
    r ← leaf_set down d level hkey key value m
    pure (r.1, r.2)
  slab_set down d level hkey key value (inr m) = meta.set m d level hkey key value

  unfoldable pub element_set :
      Setter → Bytes8 → Digester → ℕ → V → V → Element E → Action S (Element E × E × Option E)
  unfolding collide group_set slab_set overwritten
  element_set down address d level key value (single_element e) = do
    equal ← wrapped (client.comparator key e.key)
    (if equal
        then (do
          e' ← overwritten client c address e value
          pure (single_element e', e.key, some e.value))
        else collide down address d level key value e)
  element_set down address d level key value (inline_collision_group g) =
      group_set down address d level key value g
  element_set down address d level key value (external_collision_group slab_id size) = do
    slab ← get_map_slab storage slab_id
    r ← next_level d level (λ l. slab_set down d l (d.digest l).0 key value slab)
    pure (external_collision_group slab_id size, r.0, r.1)

  -- The limit of collisions per digest is checked at the first level, and only for a new key: any
  -- other error of Get is left to Set.
  unfoldable pub verdict : ℕ → Result (E × E) → Result (Unit {0})
  verdict limit (ok p) = ok tt
  verdict limit (err (user key_not_found)) = err (new_collision_limit_error limit)
  verdict limit (err e) = ok tt
  verdict limit panic = panic

  abbrev pub refuse_new : Action S (E × E) → ℕ → Action S (Unit {0})
  refuse_new get limit s = (verdict limit (get s).0, (get s).1)

  unfoldable pub check_collisions : ℕ → ℕ → Action S (E × E) → Element E → Action S (Unit {0})
  unfolding element_count verdict
  check_collisions limit level get e = if not (level == 0) then pure tt else do
    count ← element_count storage e
    (if count == 0
        then raise new_map_element_count_error
        else if leb limit (sub32 count 1)
        then refuse_new get limit
        else pure tt)

  -- Set where the digest is there, at an index with an element. `limit` is
  -- MaxCollisionLimitPerDigest.
  unfoldable pub set_at :
      ℕ
      → Getter client storage meta
      → Setter
      → Bytes8
      → Digester
      → ℕ
      → V
      → V
      → HkeyElements (Element E)
      → ℕ
      → Element E
      → Action S (HkeyElements (Element E) × E × Option E)
  unfolding check_collisions element_get element_set with_updated
  set_at limit getter down address d level key value h i e = do
    check_collisions limit h.level (element_get client storage meta getter d level key e) e
    r ← element_set down address d level key value e
    pure (with_updated element_size h i (r.0), r.1, r.2)

  -- Set on hkeyElements, over the getter and the setter of the next level.
  unfoldable pub set_in :
      ℕ
      → Getter client storage meta
      → Setter
      → Bytes8
      → Digester
      → ℕ
      → ℕ
      → V
      → V
      → HkeyElements (Element E)
      → Action S (HkeyElements (Element E) × E × Option E)
  unfolding place_in new_single_element set_at with_new
  set_in limit getter down address d level hkey key value h = do
    place ← lift (place_in h.hkeys hkey)
    elim place [
      | at_new i ↦ do
        e ← new_single_element client c address key value
        pure (with_new element_size h i hkey (single_element e), e.key, none)
      | at_equal i ↦
          or_panic (get_elem? h.elems i) (set_at limit getter down address d level key value h i)
    ]

  unfoldable pub elements_set : ℕ → ℕ → Setter
  unfolding set_in set_single elements_get
  elements_set limit fuel address d level hkey key value (single_elements g) = do
    r ← set_single client c address d level key value g
    pure (single_elements (r.0), r.1, r.2)
  elements_set limit zero address d level hkey key value (hkey_elements hkeys elems size l) =
      below_levels d level (lift panic)
  elements_set limit (suc fuel) address d level hkey key value (hkey_elements hkeys elems size l) =
      below_levels d level (do
        r ←
            set_in limit (elements_get client storage meta fuel) (elements_set limit fuel) address d
              level hkey key value (hkey_of hkeys elems size l)
        pure (of_hkey (r.0), r.1, r.2))
