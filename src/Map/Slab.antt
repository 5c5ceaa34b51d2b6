-- ===== src/Map/Slab.antt =====
-- The data of map slabs: the struct types of map_element.go, map_elements_nokey.go,
-- map_elements_hashkey.go, map_slab.go and map_data_slab.go.
use atree.Prelude.{ℕ, Bool, Option, List, [], ◌∷◌, ◌≡◌, refl, ap}
use atree.Ids.{SlabId}

-- `E` is the type of storables: the keys and the values of a map.
pub record SingleElement (E : Type 0) : Type 0 where
  pub key : E
  pub value : E
  pub size : ℕ

pub record SingleElements (E : Type 0) : Type 0 where
  pub elems : List (SingleElement E)
  pub size : ℕ
  pub level : ℕ

-- hkeyElements, over the type of its elements.
pub record HkeyElements (T : Type 0) : Type 0 where
  pub hkeys : List ℕ
  pub elems : List T
  pub size : ℕ
  pub level : ℕ

-- The interfaces `element` and `elements`. The fields of an hkeyElements stand in its constructor,
-- with a list type of their own; `hkey_of` and `of_hkey` pass between this form and the record.
mutual
  pub data Element (E : Type 0) : Type 0 where
    single_element : SingleElement E → Element E
    inline_collision_group : Elements E → Element E
    external_collision_group : (slab_id : SlabId) (size : ℕ) → Element E

  pub data Elements (E : Type 0) : Type 0 where
    hkey_elements : (hkeys : List ℕ) → ElementList E → (size level : ℕ) → Elements E
    single_elements : SingleElements E → Elements E

  pub data ElementList (E : Type 0) : Type 0 where
    nil : ElementList E
    cons : Element E → ElementList E → ElementList E

module _ {E : Type 0} where
  abbrev pub to_list : ElementList E → List (Element E)
  to_list nil = []
  to_list (cons e es) = e ∷ to_list es

  abbrev pub of_list : List (Element E) → ElementList E
  of_list [] = nil
  of_list (e ∷ es) = cons e (of_list es)

  pub to_list-of_list : (es : List (Element E)) → to_list (of_list es) ≡ es
  to_list-of_list [] = refl
  to_list-of_list (e ∷ es) = ap (◌∷◌ e) (to_list-of_list es)

  abbrev pub hkey_of : List ℕ → ElementList E → ℕ → ℕ → HkeyElements (Element E)
  hkey_of hkeys elems size level = record {
    hkeys = hkeys;
    elems = to_list elems;
    size = size;
    level = level;
  }

  abbrev pub of_hkey : HkeyElements (Element E) → Elements E
  of_hkey e = hkey_elements e.hkeys (of_list e.elems) e.size e.level

pub record MapSlabHeader : Type 0 where
  pub slab_id : SlabId
  pub size : ℕ
  pub first_key : ℕ

-- `X` is the type of the extra data.
pub record MapDataSlab (E X : Type 0) : Type 0 where
  pub next : SlabId
  pub header : MapSlabHeader
  pub elements : Elements E
  pub extra_data : Option X
  pub any_size : Bool
  pub collision_group : Bool
  pub inlined : Bool

-- What a storage of slabs holds: `meta_slab` is a MapMetaDataSlab, of type `M`, and `other` a slab
-- that is no MapSlab.
pub data Slab (E X M O : Type 0) : Type 0 where
  data_slab : MapDataSlab E X → Slab E X M O
  meta_slab : M → Slab E X M O
  other : O → Slab E X M O
