-- ===== src/Array/Ops/Step.antt =====
-- The step that the operations of array slabs take down a tree of slabs (array_slab.go,
-- array_metadata_slab.go): the child that an index falls in, read from the storage.
use atree.Prelude.{
  ℕ, zero, suc, ◌+◌, ◌<◌, ◌≡◌, ◌∙◌, ap, refl, some, List, [], ◌∷◌, ◌++◌, length, get_elem?, arith,
}
use atree.Bytes.{Bytes8}
use atree.Ids.{SlabId}
use atree.Errors.{ok, wrap_result}
use atree.Storage.Interface.{SlabStorage, StorageView, IssuesSame, IsLawfulStorage}
use atree.Settings.{Settings}
use atree.Array.Slab.{ArraySlabHeader, ArrayMetaDataSlab, Slab}
use atree.Array.Meta.{child_slab_index_info}
use atree.Array.Meta.Shape.{IsMeta}
use atree.Array.Meta.Search.{Finds, child_slab_index_info-Finds}
use atree.Array.Tree.{ArraySlab, leaf, node, slab_of, as_array_slab, get_array_slab}
use atree.Array.Ops.Under.{Footprint, IsUnder, AreFilled-HasChildren}
use atree.Array.Ops.Parts.{Kids, Around, around, count-Kid}

get_elem?-skip :
    {A : Type 0} (xs ys : List A) (i : ℕ) → get_elem? (xs ++ ys) (length xs + i) ≡ get_elem? ys i
get_elem?-skip [] ys i = ap (get_elem? ys) (omega arith)
get_elem?-skip (x ∷ xs) ys i =
    ap (get_elem? (x ∷ xs ++ ys)) {x = length (x ∷ xs) + i} {y = suc (length xs + i)} (omega arith)
    ∙ get_elem?-skip xs ys i

get_elem?-first :
    {A : Type 0} (xs ys : List A) (i : ℕ) → i < length xs → get_elem? (xs ++ ys) i ≡ get_elem? xs i
get_elem?-first [] ys i h = absurd (omega arith)
get_elem?-first (x ∷ xs) ys zero h = refl
get_elem?-first (x ∷ xs) ys (suc i) h = get_elem?-first xs ys i (omega arith)

module _ {E X O S : Type 0} (byte_size : E → ℕ) (c : Settings)
    (storage : SlabStorage S (Slab E X O)) (view : StorageView S (Slab E X O))
    (lawful : IsLawfulStorage storage view) (address : Bytes8) where
  -- A state in which the same slabs are held.
  pub record Keeps (s s' : S) : Type 0 where
    pub held : (j : SlabId) → view.held s' j ≡ view.held s j
    pub issued : IssuesSame view s s'

  pub get_array_slab_lem :
      (id : SlabId) (slab : ArraySlab E X) (s : S)
      → view.held s id ≡ ok (some (slab_of slab))
      → (s' : S) × (get_array_slab byte_size c storage id s ≡ (ok slab, s')) × Keeps s s'
  unfolding get_array_slab as_array_slab slab_of wrap_result
  get_array_slab_lem id (leaf a) s h =
      let (s', e, same, issued) = lawful.retrieve-held id s in
      (s', rw (e, h), record { held = same; issued = issued })
  get_array_slab_lem id (node a) s h =
      let (s', e, same, issued) = lawful.retrieve-held id s in
      (s', rw (e, h), record { held = same; issued = issued })

  -- The child that an index falls in, found in a node, and read from the storage.
  pub record Step (d : ℕ) (s : S) (a : ArrayMetaDataSlab X) (xs : List E) (g : Footprint)
      (index : ℕ) : Type 0 where
    pub place : ℕ
    pub inner : ℕ
    pub header : ArraySlabHeader
    pub found : child_slab_index_info a index ≡ ok (place, inner, header.slab_id)
    pub finds : Finds a.children_headers index place inner header
    pub part : Around byte_size c view address d s a.children_headers place header xs g
    pub state : S
    pub read : get_array_slab byte_size c storage header.slab_id s ≡ (ok part.has.child, state)
    pub keeps : Keeps s state
    pub inside : inner < length part.ys
    pub same : get_elem? xs index ≡ get_elem? part.ys inner

  pub find_child :
      (d : ℕ) (s : S) (a : ArrayMetaDataSlab X) (xs : List E) (g : Footprint) (index : ℕ)
      → IsMeta a
      → Kids byte_size c view address d s a.children_headers xs g
      → a.header.count ≡ length xs
      → index < length xs
      → Step d s a xs g index
  find_child d s a xs g index meta children count inside =
      let filled =
        AreFilled-HasChildren byte_size c view address (IsUnder byte_size c view address s d) s
          a.children_headers xs g children in
      let (j, i, h, found, finds) =
        child_slab_index_info-Finds a meta index filled (omega (arith, count)) in
      let p =
        around byte_size c view address d s a.children_headers xs g j h finds.child children in
      let (s', read, keeps) = get_array_slab_lem h.slab_id p.has.child s p.has.stored in
      let many = count-Kid byte_size c view address d s h p.ys p.f_child p.has in
      record {
        place = j;
        inner = i;
        header = h;
        found = found;
        finds = finds;
        part = p;
        state = s';
        read = read;
        keeps = keeps;
        inside = omega (arith, finds.inside, many);
        same =
            ap (λ zs. get_elem? zs index) p.parts
            ∙ (ap (get_elem? (p.lead ++ (p.ys ++ p.rest))) {x = index} {y = length p.lead + i}
                  (omega (arith, p.starts, finds.at_index))
                ∙ (get_elem?-skip p.lead (p.ys ++ p.rest) i
                    ∙ get_elem?-first p.ys p.rest i (omega (arith, finds.inside, many))));
      }

  pub Keeps-refl : (s : S) → Keeps s s
  Keeps-refl s = record { held = λ j. refl; issued = record { used = λ j. refl; room = λ a. refl } }

  pub Keeps-trans : (s t u : S) → Keeps s t → Keeps t u → Keeps s u
  Keeps-trans s t u h k = record {
    held = λ j. k.held j ∙ h.held j;
    issued = record {
      used = λ j. k.issued.used j ∙ h.issued.used j;
      room = λ a. k.issued.room a ∙ h.issued.room a;
    };
  }
