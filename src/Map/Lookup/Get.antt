-- ===== src/Map/Lookup/Get.antt =====
-- Get of map elements (map_element.go, map_elements_nokey.go, map_elements_hashkey.go) returns what the
-- contents hold.
use atree.Prelude.{
  ℕ, zero, suc, ◌+◌, ◌≡◌, ◌∙◌, refl, ap, true, false, Option, some, List, [], ◌∷◌, ltb, leb, ◌==◌,
  length, get_elem?, arith, Option-cases, inl, inr, ==_iff,
}
use atree.Storage.Interface.{SlabStorage}
use atree.Map.Slab.{
  Element, single_element, inline_collision_group, external_collision_group, Elements,
  hkey_elements, single_elements, to_list, Slab,
}
use atree.Map.Client.{Client, IsLawfulClient}
use atree.Map.Hkey.Shape.{AreSorted}
use atree.Map.Single.{get_single}
use atree.Map.Element.{MetaSlabs, Getter, or_panic, element_get, elements_get, get_in}
use atree.Map.Lookup.{
  AllOf, ElementHolds, IsOrdered, IsSearchable, key_digest, look_element, lookup, index_single,
  scan,
}
use atree.Map.Lookup.Scan.{Scans, missing, present, find-Scans}
use atree.Map.Lookup.Singles.{
  found, single_get-look_single, find_single-index_single, look_singles-index_single,
}

pub AllOf-at :
    {T : Type 0} (P : T → Type 0) (ts : List T) (i : ℕ) (t : T)
    → AllOf P ts
    → get_elem? ts i ≡ some t
    → P t
AllOf-at P [] i t a e = absurd cc
AllOf-at P (u ∷ ts) zero t a e = let same : u ≡ t = cc in rw same at (a.0)
AllOf-at P (u ∷ ts) (suc i) t a e = AllOf-at P ts i t a.1 e

AllOf-map :
    {T : Type 0} (P Q : T → Type 0) (ts : List T) → ((t : T) → P t → Q t) → AllOf P ts → AllOf Q ts
AllOf-map P Q [] f a = tt
AllOf-map P Q (t ∷ ts) f a = (f t a.0, AllOf-map P Q ts f a.1)

holds_map :
    {E : Type 0} (P Q : Elements E → Type 0) (e : Element E)
    → ((g : Elements E) → P g → Q g)
    → ElementHolds P e
    → ElementHolds Q e
holds_map P Q (single_element e) f h = tt
holds_map P Q (inline_collision_group g) f h = f g h
holds_map P Q (external_collision_group slab_id size) f h = absurd h

pub IsOrdered-IsSearchable :
    {E : Type 0} (n : ℕ) (g : Elements E) → IsOrdered n g → IsSearchable n g
IsOrdered-IsSearchable n (single_elements g) h = h
IsOrdered-IsSearchable zero (hkey_elements hkeys elems size level) h = absurd h
IsOrdered-IsSearchable (suc n) (hkey_elements hkeys elems size level) h = (
  h.0,
  h.1,
  AllOf-map (ElementHolds (IsOrdered n)) (ElementHolds (IsSearchable n)) (to_list elems)
      (λ e. holds_map (IsOrdered n) (IsSearchable n) e (IsOrdered-IsSearchable n)) h.3,
)

module _ {E X M O S V : Type 0} (client : Client E S V) (law : IsLawfulClient client)
    (storage : SlabStorage S (Slab E X M O)) (meta : MetaSlabs E S V M) where
  -- One level, over the getter of the next one.
  module _ (n level : ℕ) (key : V) (within : suc (level + n) ≡ law.levels)
      (down : Getter client storage meta) (look : Elements E → Option (E × E))
      (ih : (g : Elements E) (s : S)
        → IsSearchable n g
        → (down (law.digester_of key) (level + 1) (key_digest client law key (level + 1)) key g s).0
          ≡ found (look g)) where
    element_get-look_element :
        (e : Element E) (s : S)
        → ElementHolds (IsSearchable n) e
        → (element_get client storage meta down (law.digester_of key) level key e s).0
          ≡ found (look_element client law look key (some e))
    unfolding element_get look_element key_digest
    element_get-look_element (single_element e) s h = single_get-look_single client law e key s
    element_get-look_element (inline_collision_group g) s h =
        let inside : ltb (law.digester_of key).levels (level + 1) ≡ false =
          rw (law.levels-digester_of key) (ground (arith, within)) in
        rw inside (ih g s h)
    element_get-look_element (external_collision_group slab_id size) s h = absurd h

    get_in-look_element :
        (hkeys : List ℕ) (elems : List (Element E)) (s : S)
        → AreSorted hkeys
        → length hkeys ≡ length elems
        → AllOf (ElementHolds (IsSearchable n)) elems
        → (get_in client storage meta down
            (law.digester_of key)
            level
            (key_digest client law key level)
            key
            hkeys
            elems
            s).0
          ≡ found (
              look_element client law look key (scan hkeys elems (key_digest client law key level)))
    unfolding get_in look_element
    get_in-look_element hkeys elems s sorted paired h =
        go (find-Scans hkeys elems (key_digest client law key level) sorted paired)
      where
        go :
            Scans hkeys elems (key_digest client law key level)
            → (get_in client storage meta down
                (law.digester_of key)
                level
                (key_digest client law key level)
                key
                hkeys
                elems
                s).0
              ≡ found (
                  look_element client law look key
                    (scan hkeys elems (key_digest client law key level)))
        go (missing less e m) = rw (e, m) refl
        go (present less i t e at_i m) =
            rw (e, m)
              (ap
                  (λ o.
                    (or_panic o
                      (element_get client storage meta down (law.digester_of key) level key) s).0)
                  at_i
                ∙ element_get-look_element t s
                    (AllOf-at (ElementHolds (IsSearchable n)) elems i t h at_i))

  pub last_level :
      (n level : ℕ) (key : V)
      → level + n ≡ law.levels
      → n ≡ 0
      → (level == (law.digester_of key).levels) ≡ true
  last_level n level key l h = (==_iff _ _).1 (omega (arith, h, l, law.levels-digester_of key))

  -- Get, at any level, returns what the contents hold: the stored key and value, or
  -- KeyNotFoundError where the key is not there. This is for elements in groups without external
  -- ones, with as many levels left as the digester has above theirs, whose digests are sorted.
  pub elements_get-lookup :
      (n level : ℕ) (key : V) (g : Elements E) (s : S)
      → level + n ≡ law.levels
      → IsSearchable n g
      → (elements_get client storage meta n
          (law.digester_of key)
          level
          (key_digest client law key level)
          key
          g
          s).0
        ≡ found (lookup client law n level key g)
  unfolding elements_get lookup get_single
  elements_get-lookup n level key (single_elements g) s l h =
      let last = last_level n level key l h in
      rw
        (
          last,
          find_single-index_single client law key 0 g.elems s,
          look_singles-index_single client law key 0 g.elems,
        )
        (elim (Option-cases (index_single client law key 0 g.elems)) [
          | inl e ↦ rw e refl
          | inr (p, e) ↦ rw e refl
        ])
  elements_get-lookup zero level key (hkey_elements hkeys elems size f) s l h = absurd h
  elements_get-lookup (suc n) level key (hkey_elements hkeys elems size f) s l h =
      let below : leb (law.digester_of key).levels level ≡ false =
        rw (law.levels-digester_of key) (ground (arith, l)) in
      rw below (
        get_in-look_element n level key (omega (arith, l)) (elements_get client storage meta n)
          (lookup client law n (level + 1) key)
          (λ g s'. elements_get-lookup n (level + 1) key g s' (omega (arith, l))) hkeys
          (to_list elems) s h.0 h.1 h.2)
