-- ===== src/Map/Element/Fuel.antt =====
-- The fuel of Get on map elements: the levels that are left are enough.
use atree.Prelude.{
  ℕ, zero, suc, ◌+◌, ◌≤◌, ◌≡◌, inl, inr, refl, ap, true, List, leb, get_elem?, none, some, arith,
}
use mathlib.Core.Path.{fun_ext}
use atree.Errors.{new_key_not_found_error}
use atree.Action.{raise, lift, ◌>>=◌}
use atree.Storage.Interface.{SlabStorage}
use atree.Map.Slab.{
  Element, single_element, inline_collision_group, external_collision_group, hkey_elements,
  single_elements, to_list, Slab,
}
use atree.Map.Client.{Client, Digester}
use atree.Map.Hkey.{find}
use atree.Map.Element.{
  next_level, below_levels, or_panic, MetaSlabs, get_map_slab, Getter, external_get, element_get,
  get_in, elements_get,
}

module _ {E X M O S V : Type 0} (client : Client E S V) (storage : SlabStorage S (Slab E X M O))
    (meta : MetaSlabs E S V M) (d : Digester) where
  module _ (down down' : Getter client storage meta) (level : ℕ)
      (same : down d (level + 1) ≡ down' d (level + 1)) where
    element_get-same :
        (key : V) (e : Element E)
        → element_get client storage meta down d level key e
          ≡ element_get client storage meta down' d level key e
    unfolding element_get external_get
    element_get-same key (single_element e) = refl
    element_get-same key (inline_collision_group g) =
        ap (λ f. next_level d level (λ l. f (d.digest (level + 1)).0 key g)) same
    element_get-same key (external_collision_group slab_id size) =
        ap
          (λ f. get_map_slab storage slab_id >>= λ slab. next_level d level (λ l. elim slab [
            | inl m ↦ f (d.digest (level + 1)).0 key m.elements
            | inr m ↦ meta.get m d (level + 1) (d.digest (level + 1)).0 key
          ]))
          same

    get_in-same :
        (hkey : ℕ) (key : V) (hkeys : List ℕ) (elems : List (Element E))
        → get_in client storage meta down d level hkey key hkeys elems
          ≡ get_in client storage meta down' d level hkey key hkeys elems
    unfolding get_in
    get_in-same hkey key hkeys elems =
        ap
          (λ f. lift (find hkeys hkey) >>= λ found. elim (found.0) [
            | none ↦ raise new_key_not_found_error
            | some i ↦ or_panic (get_elem? elems i) f
          ])
          (fun_ext (element_get-same key))

  -- The fuel of Get does not matter where it is at least the number of levels that are left:
  -- whichever such fuel is given, Get returns the same, in every state and for all elements,
  -- external groups and errors included.
  pub elements_get_enough :
      (n n' level : ℕ)
      → d.levels ≤ level + n
      → d.levels ≤ level + n'
      → elements_get client storage meta n d level ≡ elements_get client storage meta n' d level
  unfolding elements_get
  elements_get_enough zero zero level h h' = refl
  elements_get_enough zero (suc n') level h h' =
      let above : leb d.levels level ≡ true = ground (arith, h) in
      fun_ext λ hkey. fun_ext λ key.
        fun_ext
          (elim [ (single_elements g) ↦ refl | (hkey_elements hkeys elems size l) ↦ rw above refl ])
  elements_get_enough (suc n) zero level h h' =
      let above : leb d.levels level ≡ true = ground (arith, h') in
      fun_ext λ hkey. fun_ext λ key.
        fun_ext
          (elim [ (single_elements g) ↦ refl | (hkey_elements hkeys elems size l) ↦ rw above refl ])
  elements_get_enough (suc n) (suc n') level h h' =
      let below = elements_get_enough n n' (level + 1) (omega arith) (omega arith) in
      fun_ext λ hkey. fun_ext λ key. fun_ext (elim [
        | (single_elements g) ↦ refl
        | (hkey_elements hkeys elems size l) ↦ ap (below_levels d level) (
            get_in-same (elements_get client storage meta n) (elements_get client storage meta n')
              level below hkey key hkeys (to_list elems))
      ])
