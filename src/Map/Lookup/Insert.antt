-- ===== src/Map/Lookup/Insert.antt =====
-- Set of map elements (map_element.go, map_elements_nokey.go, map_elements_hashkey.go) updates the
-- contents at one key, one level at a time.
use atree.Prelude.{
  ℕ, suc, ◌+◌, ◌<◌, ◌≡◌, ◌≢◌, refl, sym, false, Option, some, ltb, ◌==◌, arith, Bool-cases, inl,
  inr, ==_iff,
}
use atree.Bytes.{Bytes8}
use atree.Errors.{ok, wrap_result}
use atree.Storage.Interface.{SlabStorage}
use atree.Settings.{Settings}
use atree.Map.Slab.{
  SingleElement, Element, single_element, inline_collision_group, external_collision_group,
  Elements, single_elements, Slab,
}
use atree.Map.Client.{Client, IsLawfulClient, Digester, digest_at}
use atree.Map.Single.{single_of, new_single_elements_with_element}
use atree.Map.Element.{MetaSlabs}
use atree.Map.Element.Insert.{Setter, close_group, group_set, collide, element_set}
use atree.Map.Lookup.{ElementHolds, IsOrdered, key_digest, look_single, look_element, lookup}
use atree.Map.Lookup.Stores.{Stores, stored_value_of, overwritten-ok, differs}
use atree.Map.Lookup.Collision.{
  lookup-new_singles, new_hkeys, new_hkeys-IsOrdered, lookup-new_hkeys, digest_at-key_digest,
}
use atree.Map.Lookup.Digests.{Stores-from, at_element}

module _ {E X M O S V : Type 0} (client : Client E S V) (law : IsLawfulClient client) (c : Settings)
    (storage : SlabStorage S (Slab E X M O)) (meta : MetaSlabs E S V M) (address : Bytes8)
    (n level : ℕ) (key value : V) (within : suc (level + n) ≡ law.levels) (positive : 0 < level)
    (down : Setter client c storage meta) where
  abbrev own_digester : Digester
  own_digester = law.digester_of key

  abbrev deeper : ℕ
  deeper = level + 1

  abbrev pub look : V → Elements E → Option (E × E)
  look q g = lookup client law n deeper q g

  -- What Set promises of elements, of an element and of hkeyElements.
  abbrev pub SetsElements : (g : Elements E) → (r : Elements E × E × Option E) → Type 0
  SetsElements g r =
      IsOrdered n (r.0) × Stores law key value (λ q. look q g) (λ q. look q (r.0)) (r.1) (r.2)

  abbrev pub SetsElement : (V → Option (E × E)) → (r : Element E × E × Option E) → Type 0
  SetsElement old r =
      ElementHolds (IsOrdered n) (r.0)
      × Stores law key value old (λ q. at_element client law deeper look q (some (r.0))) (r.1) (r.2)

  module _
      (ih : (g : Elements E)
        → IsOrdered n g
        → (r : Elements E × E × Option E) × ((s : S)
            → (down address own_digester deeper (key_digest client law key deeper) key value g s).0
              ≡ ok r)
          × SetsElements g r) where
    group_set-Sets :
        (g : Elements E)
        → IsOrdered n g
        → (r : Element E × E × Option E) × ((s : S)
            → (group_set client c storage meta down address own_digester level key value g s).0
              ≡ ok r)
          × SetsElement (λ q. look q g) r
    unfolding group_set close_group key_digest look_element
    group_set-Sets g h =
        let (r, e, sets) = ih g h in
        let inside : ltb own_digester.levels deeper ≡ false =
          rw (law.levels-digester_of key) (ground (arith, within)) in
        let deep : (deeper == 1) ≡ false = ground (arith, positive) in
        ((inline_collision_group (r.0), r.1, r.2), λ s. rw (inside, e s, deep) refl, sets)

    -- The group of a key that collides with an existing one.
    collide-Sets :
        (e : SingleElement E)
        → key ≢ law.value_of e.key
        → (r : Element E × E × Option E) × ((s : S)
            → (collide client c storage meta down address own_digester level key value e s).0
              ≡ ok r)
          × SetsElement (λ q. look_single client law q e) r
    unfolding collide wrap_result
    collide-Sets e different = elim (Bool-cases (deeper == own_digester.levels)) [
      | inl last ↦
          let none_left : n ≡ 0 = omega (
            arith,
            (==_iff deeper own_digester.levels).0 last,
            law.levels-digester_of key,
            within,
          ) in
          let (r, run, sets) =
            group_set-Sets (single_elements (new_single_elements_with_element deeper e))
              none_left in
          (
            r,
            λ s. rw last (run s),
            (
              sets.0,
              Stores-from client law (λ q. lookup-new_singles client law n deeper q e) sets.1,
            ),
          )
      | inr more ↦
          let left : 0 < n = ground (arith, more, law.levels-digester_of key, within) in
          let existing = law.value_of e.key in
          let (r, run, sets) =
            group_set-Sets (new_hkeys client law deeper e)
              (new_hkeys-IsOrdered client law n deeper e left (omega arith)) in
          let known : digest_at (law.digester_of existing) deeper
              ≡ ok (key_digest client law existing deeper) =
            digest_at-key_digest client law existing deeper (omega (arith, left, within)) in
          (
            r,
            λ s. rw (more, law.stored_value-ok e.key s, law.digester-ok existing, known) (run _),
            (
              sets.0,
              Stores-from client law (λ q. lookup-new_hkeys client law n deeper q e left) sets.1,
            ),
          )
    ]

    pub element_set-Sets :
        (e : Element E)
        → ElementHolds (IsOrdered n) e
        → (r : Element E × E × Option E) × ((s : S)
            → (element_set client c storage meta down address own_digester level key value e s).0
              ≡ ok r)
          × SetsElement (λ q. at_element client law deeper look q (some e)) r
    unfolding element_set look_element look_single single_of wrap_result
    element_set-Sets (single_element e) h = elim (Bool-cases (law.equal key (law.value_of e.key))) [
      | inl same ↦
          let is_key : law.value_of e.key ≡ key = sym ((law.equal_iff _ _).0 same) in
          let v = stored_value_of client law c address value e.key in
          (
            (single_element (single_of client.byte_size e.key v), e.key, some e.value),
            λ s.
                rw (law.comparator-ok key e.key s, same)
                  (rw (overwritten-ok client law c address value e _) refl),
            (
              tt,
              record {
                holds = (v, rw same refl, law.value_of-storable_of _ _ value);
                is_key = is_key;
                others = λ key' m.
                    let other = differs client law c address value key key' e.key m is_key in
                    rw other refl;
                before = rw same refl;
              },
            ),
          )
      | inr other ↦
          let different : key ≢ law.value_of e.key =
            λ k. let same = (law.equal_iff _ _).1 k in cc in
          let (r, run, sets) = collide-Sets e different in
          (r, λ s. rw (law.comparator-ok key e.key s, other) (run _), sets)
    ]
    element_set-Sets (inline_collision_group g) h = group_set-Sets g h
    element_set-Sets (external_collision_group slab_id size) h = absurd h
