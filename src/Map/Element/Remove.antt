-- ===== src/Map/Element/Remove.antt =====
-- Remove of map elements (map_element.go, map_elements_hashkey.go) and of the leaf that an external
-- group keeps its elements in (map_data_slab.go).
use atree.Prelude.{
  ℕ, zero, suc, Bool, true, ◌||◌, Option, none, some, List, [], ◌∷◌, ltb, ◌==◌, if◌then◌else◌,
  length, get_elem?,
}
use atree.Ids.{SlabId}
use atree.Errors.{Result, ok, err, panic, new_key_not_found_error}
use atree.Action.{Action, pure, raise, lift, ◌>>=◌, ◌>>◌}
use atree.Storage.Interface.{SlabStorage, wrapped}
use atree.Map.Slab.{
  SingleElement, Element, single_element, inline_collision_group, external_collision_group,
  Elements, HkeyElements, hkey_elements, single_elements, hkey_of, of_hkey, MapDataSlab, Slab,
  data_slab,
}
use atree.Map.Client.{Client, Digester}
use atree.Map.Hkey.{find, element, without, with_replaced}
use atree.Map.Single.{remove_single, single_at, single_get}
use atree.Map.Element.{
  elements_count, element_size, with_elements, next_level, below_levels, get_group_slab,
}

-- No digest of the elements can be `hkey`.
abbrev pub out_of_range : List ℕ → ℕ → Bool
out_of_range [] hkey = true
out_of_range (first ∷ rest) hkey =
    ltb hkey first
    || elim (get_elem? (first ∷ rest) (length rest)) [ none ↦ true | some last ↦ ltb last hkey ]

module _ {E : Type 0} where
  -- `elements.Element(0)`
  unfoldable pub first_element : Elements E → Result (Element E)
  unfolding element single_at
  first_element (hkey_elements hkeys elems size level) = element (hkey_of hkeys elems size level) 0
  first_element (single_elements g) = elim (single_at g 0) [
    | ok e ↦ ok (single_element e)
    | err e ↦ err e
    | panic ↦ panic
  ]

  -- The single element that is left of a group, if that is all.
  unfoldable pub alone : Elements E → Result (Option (Element E))
  unfolding elements_count first_element
  alone g =
      if elements_count g == 1
      then elim (first_element g) [
        | ok e ↦ elim e [ single_element s ↦ ok (some (single_element s)) | _ ↦ ok none ]
        | err e ↦ err e
        | panic ↦ panic
      ]
      else ok none

module _ {E X M O S V : Type 0} (client : Client E S V)
    (storage : SlabStorage S (Slab E X M O)) where
  abbrev pub Remover : Type 0
  Remover = Digester → ℕ → ℕ → V → Elements E → Action S (Elements E × E × E)

  -- `MapDataSlab.Remove`
  unfoldable pub leaf_remove :
      Remover → Digester → ℕ → ℕ → V → MapDataSlab E X → Action S (MapDataSlab E X × E × E)
  unfolding with_elements
  leaf_remove down d level hkey key m = do
    r ← down d level hkey key m.elements
    let m' = with_elements m (r.0)
    if m.inlined then pure tt else wrapped (storage.store m'.header.slab_id (data_slab m'))
    pure (m', r.1, r.2)

  unfoldable pub single_remove : SingleElement E → V → Action S (Option (Element E) × E × E)
  unfolding single_get
  single_remove e key = do r ← single_get client e key; pure (none, r.0, r.1)

  unfoldable pub inline_remove :
      Remover → Digester → ℕ → V → Elements E → Action S (Option (Element E) × E × E)
  unfolding alone
  inline_remove down d level key g = next_level d level (λ l. do
    r ← down d l (d.digest l).0 key g
    left ← lift (alone (r.0))
    elim left [
      | some e ↦ pure (some e, r.1, r.2)
      | none ↦ pure (some (inline_collision_group (r.0)), r.1, r.2)
    ])

  unfoldable pub external_remove :
      Remover → Digester → ℕ → V → SlabId → ℕ → Action S (Option (Element E) × E × E)
  unfolding alone leaf_remove get_group_slab
  external_remove down d level key slab_id size = do
    m ← get_group_slab storage slab_id
    next_level d level (λ l. do
      r ← leaf_remove down d l (d.digest l).0 key m
      left ← lift (alone (r.0).elements)
      elim left [
        | some e ↦ do wrapped (storage.remove slab_id); pure (some e, r.1, r.2)
        | none ↦ pure (some (external_collision_group slab_id size), r.1, r.2)
      ])

  unfoldable pub element_remove :
      Remover → Digester → ℕ → V → Element E → Action S (Option (Element E) × E × E)
  unfolding single_remove inline_remove external_remove
  element_remove down d level key (single_element e) = single_remove e key
  element_remove down d level key (inline_collision_group g) = inline_remove down d level key g
  element_remove down d level key (external_collision_group slab_id size) =
      external_remove down d level key slab_id size

  unfoldable pub remove_in :
      Remover
      → Digester
      → ℕ
      → ℕ
      → V
      → HkeyElements (Element E)
      → Action S (HkeyElements (Element E) × E × E)
  unfolding find element_remove without with_replaced
  remove_in down d level hkey key h =
      if out_of_range h.hkeys hkey then raise new_key_not_found_error else do
        found ← lift (find h.hkeys hkey)
        elim (found.0) [
          | none ↦ raise new_key_not_found_error
          | some i ↦ elim (get_elem? h.elems i) [
            | none ↦ lift panic
            | some e ↦ do
              r ← element_remove down d level key e
              elim (r.0) [
                | none ↦ pure (without element_size h i e, r.1, r.2)
                | some e' ↦ pure (with_replaced element_size h i e e', r.1, r.2)
              ]
          ]
        ]

  unfoldable pub elements_remove : ℕ → Remover
  unfolding remove_in remove_single
  elements_remove fuel d level hkey key (single_elements g) = do
    r ← remove_single client d level key g
    pure (single_elements (r.0), r.1, r.2)
  elements_remove zero d level hkey key (hkey_elements hkeys elems size l) =
      below_levels d level (lift panic)
  elements_remove (suc fuel) d level hkey key (hkey_elements hkeys elems size l) =
      below_levels d level (do
        r ← remove_in (elements_remove fuel) d level hkey key (hkey_of hkeys elems size l)
        pure (of_hkey (r.0), r.1, r.2))
