-- ===== src/Map/Lookup/Update.antt =====
-- Set of hkeyElements and of all elements (map_elements_hashkey.go) updates the contents at one key.
use atree.Prelude.{
  ℕ, zero, suc, ◌+◌, ◌<◌, ◌≡◌, ◌∙◌, refl, ap, sym, false, Option, none, some, leb, ◌==◌, length,
  get_elem?-lt, length-set, arith,
}
use atree.Bytes.{Bytes8}
use atree.Errors.{ok}
use atree.Action.{Action}
use atree.Storage.Interface.{SlabStorage}
use atree.Settings.{Settings}
use atree.Map.Slab.{
  Element, single_element, Elements, HkeyElements, hkey_elements, single_elements, hkey_of, of_hkey,
  to_list-of_list, Slab,
}
use atree.Map.Client.{Client, IsLawfulClient, Digester}
use atree.Map.Hkey.{Place, at_equal, at_new, place_in, with_new, with_updated}
use atree.Map.Hkey.Shape.{AreSorted, AreSorted-insert}
use atree.Map.Hkey.Search.{IsPlace, place_in_lem}
use atree.Map.Hkey.Update.{length-insert_at, get_elem?-inside}
use atree.Map.Single.{single_of}
use atree.Map.Element.{or_panic, MetaSlabs, element_size, elements_get, Getter}
use atree.Map.Element.Insert.{Setter, check_collisions, set_at, set_in, elements_set}
use atree.Map.Lookup.{
  AllOf, ElementHolds, IsOrdered, key_digest, look_single, look_element, lookup, scan,
}
use atree.Map.Lookup.Get.{AllOf-at, last_level}
use atree.Map.Lookup.Insert.{element_set-Sets}
use atree.Map.Lookup.Scan.{
  scan-at, scan-new, scan-insert_at, scan-insert_at-other, scan-set, scan-set-other,
}
use atree.Map.Lookup.Stores.{
  Stores, set_single-Stores, stored_value_of, stored_key, new_single_element-ok, differs, same_key,
}
use atree.Map.Lookup.Digests.{AllOf-insert_at, AllOf-set, at_element, scan-Stores}

module _ {E X M O S V : Type 0} (client : Client E S V) (law : IsLawfulClient client) (c : Settings)
    (storage : SlabStorage S (Slab E X M O)) (meta : MetaSlabs E S V M) (address : Bytes8)
    (n level : ℕ) (key value : V) (within : suc (level + n) ≡ law.levels) (positive : 0 < level)
    (down : Setter client c storage meta) where
  abbrev own_digester : Digester
  own_digester = law.digester_of key

  abbrev deeper : ℕ
  deeper = level + 1

  abbrev look : V → Elements E → Option (E × E)
  look q g = lookup client law n deeper q g

  module _
      (ih : (g : Elements E)
        → IsOrdered n g
        → (r : Elements E × E × Option E) × ((s : S)
            → (down address own_digester deeper (key_digest client law key deeper) key value g s).0
              ≡ ok r)
          × (IsOrdered n (r.0)
              × Stores law key value (λ q. look q g) (λ q. look q (r.0)) (r.1) (r.2))) where
    -- The same of hkeyElements.
    abbrev pub Below : HkeyElements (Element E) → Type 0
    Below h =
        AreSorted h.hkeys
        × (length h.hkeys ≡ length h.elems)
        × (0 < h.level)
        × AllOf (ElementHolds (IsOrdered n)) h.elems

    abbrev pub under : HkeyElements (Element E) → V → Option (E × E)
    under h q =
        at_element client law deeper look q (scan h.hkeys h.elems (key_digest client law q level))

    abbrev pub SetsHkey :
        (h : HkeyElements (Element E)) → (r : HkeyElements (Element E) × E × Option E) → Type 0
    SetsHkey h r = Below (r.0) × Stores law key value (under h) (under (r.0)) (r.1) (r.2)

    module _ (limit : ℕ) (getter : Getter client storage meta) (h : HkeyElements (Element E))
        (below : Below h) where
      abbrev k : ℕ
      k = key_digest client law key level

      abbrev run_of : Action S (HkeyElements (Element E) × E × Option E)
      run_of =
          set_in client c storage meta limit getter down address own_digester level k key value h

      set_new-Sets :
          (i : ℕ)
          → place_in h.hkeys k ≡ ok (at_new i)
          → IsPlace h.hkeys k (at_new i)
          → (r : HkeyElements (Element E) × E × Option E) × ((s : S) → (run_of s).0 ≡ ok r)
            × SetsHkey h r
      unfolding set_in with_new look_element look_single single_of
      set_new-Sets i e place =
          let ks = stored_key client law c address value key in
          let v = stored_value_of client law c address value ks in
          let is_key = law.value_of-storable_of address c.max_inline_map_key_size key in
          let same = same_key client law c address value key ks is_key in
          let t = single_element (single_of client.byte_size ks v) in
          let stored : Stores law key value (λ q. at_element client law deeper look q none)
              (λ q. at_element client law deeper look q (some t)) ks none =
            record {
              holds = (v, rw same refl, law.value_of-storable_of _ _ value);
              is_key = is_key;
              others = λ key' m.
                  let other = differs client law c address value key key' ks m is_key in
                  rw other refl;
              before = refl;
            } in
          (
            (with_new element_size h i k t, ks, none),
            λ s. rw (e, new_single_element-ok client law c address value key s) refl,
            (
              (
                AreSorted-insert i k h.hkeys below.0 place.1 place.2,
                length-insert_at h.hkeys i k place.0
                    ∙ ap suc below.1
                    ∙ sym (length-insert_at h.elems i t (omega (arith, place.0, below.1))),
                below.2,
                AllOf-insert_at (ElementHolds (IsOrdered n)) h.elems i t below.3 tt,
              ),
              scan-Stores client law level look key value h.hkeys _ h.elems _ none (some t) ks none
                  (scan-new h.hkeys h.elems k i place)
                  (scan-insert_at h.hkeys h.elems k i t below.1 place)
                  (λ j n'. scan-insert_at-other h.hkeys h.elems k i j t below.1 place.0 n') stored,
            ),
          )

      set_equal-Sets :
          (i : ℕ)
          → place_in h.hkeys k ≡ ok (at_equal i)
          → IsPlace h.hkeys k (at_equal i)
          → (r : HkeyElements (Element E) × E × Option E) × ((s : S) → (run_of s).0 ≡ ok r)
            × SetsHkey h r
      unfolding set_in set_at with_updated check_collisions
      set_equal-Sets i e place =
          let inside = get_elem?-inside h.hkeys i k place in
          let (old, at_i) = get_elem?-lt h.elems i (omega (arith, inside, below.1)) in
          let (r, run, sets) =
            element_set-Sets client law c storage meta address n level key value within positive
              down ih old (AllOf-at (ElementHolds (IsOrdered n)) h.elems i old below.3 at_i) in
          let deep : (h.level == 0) ≡ false = ground (arith, below.2) in
          (
            (with_updated element_size h i (r.0), r.1, r.2),
            λ s. rw e (
                ap
                  (λ o.
                    (or_panic o
                      (set_at client c storage meta limit getter down address own_digester level key
                        value h i)
                      s).0)
                  at_i
                ∙ rw (set_at, deep, run s) refl),
            (
              (
                below.0,
                below.1 ∙ sym (length-set h.elems i (r.0)),
                below.2,
                AllOf-set (ElementHolds (IsOrdered n)) h.elems i (r.0) below.3 sets.0,
              ),
              scan-Stores client law level look key value h.hkeys h.hkeys h.elems _ (some old)
                  (some (r.0)) (r.1) (r.2)
                  (scan-at h.hkeys h.elems k i below.0 below.1 place ∙ at_i)
                  (scan-set h.hkeys h.elems k i (r.0) below.0 below.1 place)
                  (λ j n'. scan-set-other h.hkeys h.elems k i j (r.0) place n') sets.1,
            ),
          )

      set_in-Sets :
          (r : HkeyElements (Element E) × E × Option E) × ((s : S) → (run_of s).0 ≡ ok r)
          × SetsHkey h r
      set_in-Sets = go (place_in_lem h.hkeys k below.0)
        where
          go :
              (p : Place) × (place_in h.hkeys k ≡ ok p) × IsPlace h.hkeys k p
              → (r : HkeyElements (Element E) × E × Option E) × ((s : S) → (run_of s).0 ≡ ok r)
                × SetsHkey h r
          go (at_new i, e, place) = set_new-Sets i e place
          go (at_equal i, e, place) = set_equal-Sets i e place

module _ {E X M O S V : Type 0} (client : Client E S V) (law : IsLawfulClient client) (c : Settings)
    (storage : SlabStorage S (Slab E X M O)) (meta : MetaSlabs E S V M) (address : Bytes8)
    (limit : ℕ) (key value : V) where
  -- Set succeeds and updates the contents at one key: afterwards the key has the value, the other
  -- keys have what they had, and the old value comes back. This is for elements below level 0, in
  -- groups without external ones, with as many levels left as the own_digester has above theirs, that
  -- are ordered, and they stay ordered.
  pub elements_set-Stores :
      (n level : ℕ) (g : Elements E)
      → level + n ≡ law.levels
      → 0 < level
      → IsOrdered n g
      → (r : Elements E × E × Option E) × ((s : S)
          → (elements_set client c storage meta limit n address
              (law.digester_of key)
              level
              (key_digest client law key level)
              key
              value
              g
              s).0
            ≡ ok r)
        × (IsOrdered n r.0
            × Stores law key value
                (λ q. lookup client law n level q g)
                (λ q. lookup client law n level q r.0)
                r.1
                r.2)
  unfolding elements_set lookup
  elements_set-Stores n level (single_elements g) l p h =
      let (r, run, st) =
        set_single-Stores client law c address value (law.digester_of key) level key g
          (last_level client law storage meta n level key l h) in
      ((single_elements (r.0), r.1, r.2), λ s. rw (run s) refl, (h, st))
  elements_set-Stores zero level (hkey_elements hkeys elems size f) l p h = absurd h
  elements_set-Stores (suc n) level (hkey_elements hkeys elems size f) l p h =
      let inside : leb (law.digester_of key).levels level ≡ false =
        rw (law.levels-digester_of key) (ground (arith, l)) in
      let (r, run, sets) =
        set_in-Sets client law c storage meta address n level key value (omega (arith, l)) p
          (elements_set client c storage meta limit n)
          (λ g h'. elements_set-Stores n (level + 1) g (omega (arith, l)) (omega arith) h') limit
          (elements_get client storage meta n) (hkey_of hkeys elems size f) h in
      (
        (of_hkey (r.0), r.1, r.2),
        λ s. rw (inside, run s) refl,
        (rw (to_list-of_list r.0.elems) sets.0, rw (to_list-of_list r.0.elems) sets.1),
      )
