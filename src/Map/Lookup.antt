-- ===== src/Map/Lookup.antt =====
-- The contents of map elements that are not in slabs of their own, as a finite map: what the methods
-- of map_element.go, map_elements_nokey.go and map_elements_hashkey.go are compared with.
pub mod Scan
pub mod Singles
pub mod Get
pub mod Stores
pub mod Digests
pub mod Collision
pub mod Insert
pub mod Update
pub mod RoundTrip
use atree.Prelude.{
  ℕ, zero, suc, ◌+◌, ◌<◌, ◌≡◌, Bool, Option, none, some, List, [], ◌∷◌, ◌==◌, if◌then◌else◌, length,
}
use atree.Map.Slab.{
  SingleElement, Element, single_element, inline_collision_group, external_collision_group,
  Elements, hkey_elements, single_elements, to_list,
}
use atree.Map.Client.{Client, IsLawfulClient, Digester}
use atree.Map.Hkey.Shape.{AreSorted}

-- The element of a digest, by a walk through both lists.
unfoldable pub scan : {T : Type 0} → List ℕ → List T → ℕ → Option T
scan [] ts hkey = none
scan (h ∷ hs) [] hkey = none
scan (h ∷ hs) (t ∷ ts) hkey = let rest = scan hs ts hkey in if h == hkey then some t else rest

abbrev pub AllOf : {T : Type 0} → (T → Type 0) → List T → Type 0
AllOf P [] = Unit
AllOf P (t ∷ ts) = P t × AllOf P ts

module _ {E : Type 0} where
  abbrev pub ElementHolds : (Elements E → Type 0) → Element E → Type 0
  ElementHolds P (single_element e) = Unit
  ElementHolds P (inline_collision_group g) = P g
  ElementHolds P (external_collision_group slab_id size) = ⊥

  -- Elements with `n` levels left below their own, in groups without external ones: single elements
  -- stand at the last level, and hkeyElements have sorted digests, one for each element.
  abbrev pub IsSearchable : ℕ → Elements E → Type 0
  IsSearchable n (single_elements g) = n ≡ 0
  IsSearchable zero (hkey_elements hkeys elems size level) = ⊥
  IsSearchable (suc n) (hkey_elements hkeys elems size level) =
      AreSorted hkeys
      × (length hkeys ≡ length (to_list elems))
      × AllOf (ElementHolds (IsSearchable n)) (to_list elems)

  -- The same for elements none of which is at level 0, whose groups may become external.
  abbrev pub IsOrdered : ℕ → Elements E → Type 0
  IsOrdered n (single_elements g) = n ≡ 0
  IsOrdered zero (hkey_elements hkeys elems size level) = ⊥
  IsOrdered (suc n) (hkey_elements hkeys elems size level) =
      AreSorted hkeys
      × (length hkeys ≡ length (to_list elems))
      × (0 < level)
      × AllOf (ElementHolds (IsOrdered n)) (to_list elems)

module _ {E S V : Type 0} (client : Client E S V) (law : IsLawfulClient client) where
  unfoldable pub key_digest : V → ℕ → ℕ
  key_digest key level = (((law.digester_of key).digest level)).0

  unfoldable pub look_single : V → SingleElement E → Option (E × E)
  look_single key e = if law.equal key (law.value_of e.key) then some (e.key, e.value) else none

  unfoldable pub look_singles : V → List (SingleElement E) → Option (E × E)
  look_singles key [] = none
  look_singles key (e ∷ es) =
      let rest = look_singles key es in
      if law.equal key (law.value_of e.key) then some (e.key, e.value) else rest

  -- Where the linear search finds a key, from index `i`.
  unfoldable pub index_single : V → ℕ → List (SingleElement E) → Option (ℕ × SingleElement E)
  index_single key i [] = none
  index_single key i (e ∷ es) =
      let rest = index_single key (suc i) es in
      if law.equal key (law.value_of e.key) then some (i, e) else rest

  unfoldable pub look_element :
      (Elements E → Option (E × E)) → V → Option (Element E) → Option (E × E)
  unfolding look_single
  look_element down key none = none
  look_element down key (some (single_element e)) = look_single key e
  look_element down key (some (inline_collision_group g)) = down g
  look_element down key (some (external_collision_group slab_id size)) = none

  -- The stored key and value of a key, for elements at a level with `n` levels left.
  unfoldable pub lookup : ℕ → ℕ → V → Elements E → Option (E × E)
  unfolding scan key_digest look_singles look_element
  lookup n level key (single_elements g) = look_singles key g.elems
  lookup zero level key (hkey_elements hkeys elems size l) = none
  lookup (suc n) level key (hkey_elements hkeys elems size l) =
      look_element (lookup n (level + 1) key) key
        (scan hkeys (to_list elems) (key_digest key level))
