-- ===== src/Array/Data/Update.antt =====
-- Set, Insert, Remove, Inline and Uninline of a leaf (array_data_slab.go) keep its header right.
use atree.Prelude.{
  ℕ, zero, suc, ◌+◌, ◌≤◌, ◌<◌, ◌≡◌, ◌^◌, ◌∙◌, refl, false, some, List, [], ◌∷◌, length, get_elem?,
  set, insert_at, remove_at, sum_by, length-set, arith, add32, sub32, add32_lem, ltb,
}
use atree.Bytes.{Bytes8}
use atree.Errors.{ok, wrap_result}
use atree.Action.{Action}
use atree.Storage.Interface.{SlabStorage}
use atree.Settings.{Settings}
use atree.Array.Slab.{ArrayDataSlab, Slab}
use atree.Array.Data.{
  get_prefix_size, set_element, with_element, insert, with_inserted, remove, without_element,
  total_size, store_unless_inlined,
}

module _ {E : Type 0} (byte_size : E → ℕ) where
  -- The header of a leaf, be it inlined, a root or neither, counts its elements and their bytes.
  pub record IsDataSlab {X : Type 0} (a : ArrayDataSlab E X) : Type 0 where
    pub counted : a.header.count ≡ length a.elements
    pub sized : a.header.size ≡ get_prefix_size a + sum_by byte_size a.elements
    pub fits : a.header.size < 2 ^ 30
    pub few : a.header.count < 2 ^ 30

  -- `m` is `a` with other elements and a header that is right for them.
  pub record Updates {X : Type 0} (a m : ArrayDataSlab E X) (es : List E) : Type 0 where
    pub holds : m.elements ≡ es
    pub sound : IsDataSlab m
    pub id : m.header.slab_id ≡ a.header.slab_id
    pub next : m.next ≡ a.next
    pub extra : m.extra_data ≡ a.extra_data
    pub place : m.inlined ≡ a.inlined

  total_size_lem :
      (size : ℕ) (es : List E)
      → size + sum_by byte_size es < 2 ^ 31
      → total_size byte_size size es ≡ size + sum_by byte_size es
  unfolding total_size
  total_size_lem size [] h = omega arith
  total_size_lem size (e ∷ es) h =
      let plus : add32 size (byte_size e) ≡ size + byte_size e = add32_lem _ _ (omega arith) in
      rw plus (total_size_lem (size + byte_size e) es (omega arith) ∙ omega arith)

  -- The element at a position, taken out of the bytes and of the number of elements.
  bytes-remove_at :
      (es : List E) (i : ℕ) (e : E)
      → get_elem? es i ≡ some e
      → (sum_by byte_size (remove_at es i) + byte_size e ≡ sum_by byte_size es)
        × (length (remove_at es i) + 1 ≡ length es)
  bytes-remove_at [] i e h = absurd (ground (arith, h))
  bytes-remove_at (x ∷ es) zero e h = ground (arith, h)
  bytes-remove_at (x ∷ es) (suc i) e h = omega (arith, bytes-remove_at es i e h)

  bytes-insert_at :
      (es : List E) (i : ℕ) (e : E)
      → i ≤ length es
      → (sum_by byte_size (insert_at es i e) ≡ sum_by byte_size es + byte_size e)
        × (length (insert_at es i e) ≡ length es + 1)
  bytes-insert_at es zero e h = omega arith
  bytes-insert_at [] (suc i) e h = absurd (omega arith)
  bytes-insert_at (x ∷ es) (suc i) e h = omega (arith, bytes-insert_at es i e (omega arith))

  module _ {X : Type 0} (a : ArrayDataSlab E X) (sound : IsDataSlab a) where
    pub with_inserted-Updates :
        (i : ℕ) (e : E)
        → i ≤ length a.elements
        → a.header.size + byte_size e < 2 ^ 30
        → a.header.count + 1 < 2 ^ 30
        → Updates a (with_inserted byte_size a i e) (insert_at a.elements i e)
    unfolding with_inserted get_prefix_size add32
    with_inserted-Updates i e l fits few =
        let sizes = bytes-insert_at a.elements i e l in
        record {
          holds = refl;
          sound = omega (arith, sizes.0, sizes.1, sound.counted, sound.sized, fits, few);
          id = refl;
          next = refl;
          extra = refl;
          place = refl;
        }

    without_element-Updates :
        (i : ℕ) (e : E)
        → get_elem? a.elements i ≡ some e
        → Updates a (without_element byte_size a i e) (remove_at a.elements i)
    unfolding without_element get_prefix_size sub32
    without_element-Updates i e h =
        let sizes = bytes-remove_at a.elements i e h in
        record {
          holds = refl;
          sound =
              omega (arith, sizes.0, sizes.1, sound.counted, sound.sized, sound.fits, sound.few);
          id = refl;
          next = refl;
          extra = refl;
          place = refl;
        }

    with_element-Updates :
        (i : ℕ) (e : E)
        → get_prefix_size a + sum_by byte_size (set a.elements i e) < 2 ^ 30
        → Updates a (with_element byte_size a i e) (set a.elements i e)
    unfolding with_element get_prefix_size
    with_element-Updates i e fits =
        let sizes = total_size_lem (get_prefix_size a) (set a.elements i e) (omega arith) in
        record {
          holds = refl;
          sound = omega (arith, sizes, length-set a.elements i e, sound.counted, sound.few, fits);
          id = refl;
          next = refl;
          extra = refl;
          place = refl;
        }

module _ {E X O S V : Type 0} (byte_size : E → ℕ) (c : Settings)
    (storage : SlabStorage S (Slab E X O)) (storable : Bytes8 → ℕ → V → Action S E)
    (a : ArrayDataSlab E X) (sound : IsDataSlab byte_size a) where
  abbrev stored : ArrayDataSlab E X → Action S (Unit {0})
  stored = store_unless_inlined byte_size c storage storable

  -- Insert at a position up to the number of elements, where the value turns into a storable and the
  -- slab, unless it is inlined, is stored: the slab holds the storable at that position and the
  -- others around it, with a right header.
  pub insert_lem :
      (address : Bytes8) (index : ℕ) (value : V) (e : E) (s s1 s2 : S)
      → index ≤ length a.elements
      → a.header.size + byte_size e < 2 ^ 30
      → a.header.count + 1 < 2 ^ 30
      → storable address c.max_inline_array_element_size value s ≡ (ok e, s1)
      → stored (with_inserted byte_size a index e) s1 ≡ (ok tt, s2)
      → (m : ArrayDataSlab E X) × (insert byte_size c storage storable a address index value s
          ≡ (ok m, s2))
        × Updates byte_size a m (insert_at a.elements index e)
  unfolding insert wrap_result
  insert_lem address index value e s s1 s2 l fits few made kept =
      let inside : ltb (length a.elements) index ≡ false = ground arith in
      (
        with_inserted byte_size a index e,
        rw (inside, made, insert, kept),
        with_inserted-Updates byte_size a sound index e l fits few,
      )

  -- Remove of an element, where the slab, unless it is inlined, is stored: the slab holds the other
  -- elements in order, with a right header, and the element is the result.
  pub remove_lem :
      (index : ℕ) (e : E) (s s1 : S)
      → get_elem? a.elements index ≡ some e
      → stored (without_element byte_size a index e) s ≡ (ok tt, s1)
      → (m : ArrayDataSlab E X) × (remove byte_size c storage storable a index s ≡ (ok (m, e), s1))
        × Updates byte_size a m (remove_at a.elements index)
  unfolding remove
  remove_lem index e s s1 found kept = (
    without_element byte_size a index e,
    rw (found, remove, kept),
    without_element-Updates byte_size a sound index e found,
  )

  -- Set of an element, where the value turns into a storable and the slab, unless it is inlined, is
  -- stored: the slab holds the storable in the element's place, with a right header, and the old
  -- element is the result.
  pub set_element_lem :
      (address : Bytes8) (index : ℕ) (value : V) (old e : E) (s s1 s2 : S)
      → get_elem? a.elements index ≡ some old
      → get_prefix_size a + sum_by byte_size (set a.elements index e) < 2 ^ 30
      → storable address c.max_inline_array_element_size value s ≡ (ok e, s1)
      → stored (with_element byte_size a index e) s1 ≡ (ok tt, s2)
      → (m : ArrayDataSlab E X) × (set_element byte_size c storage storable a address index value s
          ≡ (ok (m, old), s2))
        × Updates byte_size a m (set a.elements index e)
  unfolding set_element wrap_result
  set_element_lem address index value old e s s1 s2 found fits made kept = (
    with_element byte_size a index e,
    rw (found, set_element, made, kept),
    with_element-Updates byte_size a sound index e fits,
  )
