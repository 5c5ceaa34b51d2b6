-- ===== src/Map/Lookup/RoundTrip.antt =====
-- What Get returns after Set of map elements (map_element.go, map_elements_hashkey.go).
use atree.Prelude.{ℕ, ◌+◌, ◌<◌, ◌≡◌, ◌≢◌, ◌∙◌, ap, sym, Option}
use atree.Bytes.{Bytes8}
use atree.Errors.{Result, ok}
use atree.Storage.Interface.{SlabStorage}
use atree.Settings.{Settings}
use atree.Map.Slab.{Elements, Slab}
use atree.Map.Client.{Client, IsLawfulClient}
use atree.Map.Element.{MetaSlabs, elements_get}
use atree.Map.Element.Insert.{elements_set}
use atree.Map.Lookup.{IsOrdered, key_digest}
use atree.Map.Lookup.Singles.{found}
use atree.Map.Lookup.Get.{elements_get-lookup, IsOrdered-IsSearchable}
use atree.Map.Lookup.Update.{elements_set-Stores}

module _ {E X M O S V : Type 0} (client : Client E S V) (law : IsLawfulClient client) (c : Settings)
    (storage : SlabStorage S (Slab E X M O)) (meta : MetaSlabs E S V M) (address : Bytes8)
    (limit : ℕ) (key value : V) (n level : ℕ) (g : Elements E) where
  -- Get of a key, with the levels that are left as fuel.
  abbrev pub got : V → Elements E → S → Result (E × E)
  got q g' s =
      (elements_get client storage meta n (law.digester_of q) level (key_digest client law q level)
        q g' s).0

  abbrev pub was_set : S → Result (Elements E × E × Option E)
  was_set s =
      (elements_set client c storage meta limit n address (law.digester_of key) level
        (key_digest client law key level) key value g s).0

  -- Get after Set: Set succeeds, and then Get of its key returns the stored key and the value, and
  -- Get of another key returns what it returned before, an error included. This is for elements
  -- below level 0, in groups without external ones, with as many levels left as the digester has
  -- above theirs, that are ordered.
  pub elements_get-elements_set :
      level + n ≡ law.levels
      → 0 < level
      → IsOrdered n g
      → (r : Elements E × E × Option E) × ((s : S) → was_set s ≡ ok r)
        × ((v : E) × ((s : S) → got key r.0 s ≡ ok (r.1, v)) × (law.value_of v ≡ value))
        × ((key' : V) (s : S) → key ≢ key' → got key' r.0 s ≡ got key' g s)
  elements_get-elements_set l p h =
      let (r, run, sets) =
        elements_set-Stores client law c storage meta address limit key value n level g l p h in
      let ordered = sets.0 in
      let st = sets.1 in
      let (v, stored, is_value) = st.holds in
      let get = elements_get-lookup client law storage meta n level in
      (
        r,
        run,
        (
          v,
          λ s. get key (r.0) s l (IsOrdered-IsSearchable n (r.0) ordered) ∙ ap found stored,
          is_value,
        ),
        λ key' s different.
            get key' (r.0) s l (IsOrdered-IsSearchable n (r.0) ordered)
            ∙ ap found (st.others key' different)
            ∙ sym (get key' g s l (IsOrdered-IsSearchable n g h)),
      )
