-- ===== src/Array/Ops/Insert.antt =====
-- Insert of an array's slabs (array_data_slab.go, array_metadata_slab.go) inserts into the sequence
-- of elements that the tree holds.
use mathlib.Core.Bool.{true≢false}
use atree.Prelude.{
  ℕ, zero, suc, ◌+◌, ◌<◌, ◌≤◌, ◌≡◌, ◌^◌, ◌∙◌, ap, sym, refl, true, false, List, [], ◌∷◌, length,
  insert_at, ltb, arith, if◌then◌else◌, add32, add32_lem,
}
use atree.Bytes.{Bytes8}
use atree.Ids.{SlabId}
use atree.Errors.{ok, wrap_result}
use atree.Action.{Action, pure, bind-ok}
use atree.Storage.Interface.{SlabStorage, StorageView, IsLawfulStorage}
use atree.Settings.{Settings, IsSettings}
use atree.Array.Slab.{ArrayDataSlab, Slab}
use atree.Array.Data
use atree.Array.Data.{with_inserted}
use atree.Array.Data.Shape.{AreSized}
use atree.Array.Data.Update.{with_inserted-Updates}
use atree.Array.Tree.{leaf, header_of, slab_of, is_inlined, extra_data_of, store_array_slab}
use atree.Array.Ops.Under.{Footprint, IsUnder, own-IsUnder}
use atree.Array.Ops.Grows.{store_array_slab_lem, Writes-other, Writes-self}
use atree.Array.Ops.Settle.{Stands}
use atree.Array.Ops.Pair.{apart_of}

AreSized-insert :
    {E : Type 0} (byte_size : E → ℕ) (limit : ℕ) (xs : List E) (i : ℕ) (e : E)
    → AreSized byte_size limit xs
    → 0 < byte_size e
    → byte_size e ≤ limit
    → i ≤ length xs
    → AreSized byte_size limit (insert_at xs i e)
AreSized-insert byte_size limit xs zero e h some_size small l = (some_size, small, h)
AreSized-insert byte_size limit [] (suc i) e h some_size small l = absurd (omega arith)
AreSized-insert byte_size limit (x ∷ xs) (suc i) e h some_size small l =
    (h.0, h.1, AreSized-insert byte_size limit xs i e h.2 some_size small (omega arith))

module _ {E X O S V : Type 0} (byte_size : E → ℕ) (c : Settings)
    (storage : SlabStorage S (Slab E X O)) (storable : Bytes8 → ℕ → V → Action S E)
    (view : StorageView S (Slab E X O)) (lawful : IsLawfulStorage storage view) (address : Bytes8)
    (set : IsSettings c) (value : V) (e : E) (some_size : 0 < byte_size e)
    (small : byte_size e ≤ c.max_inline_array_element_size)
    (made : (t : S) → storable address c.max_inline_array_element_size value t ≡ (ok e, t)) where
  store_unless_inlined-stored :
      (b : ArrayDataSlab E X) (s s' : S)
      → b.inlined ≡ false
      → store_array_slab byte_size c storage (leaf b) s ≡ (ok tt, s')
      → Data.store_unless_inlined byte_size c storage storable b s ≡ (ok tt, s')
  unfolding Data.store_unless_inlined Data.store_slab header_of slab_of
  store_unless_inlined-stored b s s' apart done =
      ap (λ x. (if x then pure tt else Data.store_slab byte_size c storage storable b) s) apart
      ∙ done

  still_apart :
      (a : ArrayDataSlab E X) (index : ℕ)
      → a.inlined ≡ false
      → (with_inserted byte_size a index e).inlined ≡ false
  unfolding with_inserted
  still_apart a index apart = apart

  insert-stored :
      (a : ArrayDataSlab E X) (index : ℕ) (s s' : S)
      → index ≤ length a.elements
      → a.inlined ≡ false
      → store_array_slab byte_size c storage (leaf (with_inserted byte_size a index e)) s
        ≡ (ok tt, s')
      → Data.insert byte_size c storage storable a address index value s
        ≡ (ok (with_inserted byte_size a index e), s')
  unfolding Data.insert wrap_result
  insert-stored a index s s' l apart done =
      let inside : ltb (length a.elements) index ≡ false = ground arith in
      let new = with_inserted byte_size a index e in
      rw (inside, made s)
        (bind-ok (Data.store_unless_inlined byte_size c storage storable new) (λ _. pure new) tt s
          s' (store_unless_inlined-stored new s s' (still_apart a index apart) done))

  pub insert_leaf :
      (s : S) (a : ArrayDataSlab E X) (xs : List E) (f : Footprint) (index : ℕ)
      → IsUnder byte_size c view address s zero (leaf a) xs f
      → ((j : SlabId) → f j ≡ true → view.used s j ≡ true)
      → a.inlined ≡ false
      → a.header.size ≤ c.max_threshold
      → index ≤ length xs
      → length xs + 1 < 2 ^ 30
      → (s' : S) × (Data.insert byte_size c storage storable a address index value s
          ≡ (ok (with_inserted byte_size a index e), s'))
        × Stands byte_size c view address zero zero s s' a.header.slab_id a.extra_data
            (leaf (with_inserted byte_size a index e))
            (insert_at xs index e)
            f
  unfolding IsUnder header_of extra_data_of is_inlined slab_of with_inserted
  insert_leaf s a xs f index u used apart low l few =
      let (sound, holds, sized, own) = u in
      let o = a.header.slab_id in
      let same : length a.elements ≡ length xs = ap length holds in
      let new = with_inserted byte_size a index e in
      let in_own : f o ≡ true = own-IsUnder byte_size c view address s zero (leaf a) xs f u in
      let up =
        with_inserted-Updates byte_size a sound index e (omega (arith, same))
          (omega (arith, low, small, set.most, set.upper, set.inline_limit))
          (omega (arith, sound.counted, same, few)) in
      let plus : add32 a.header.size (byte_size e) ≡ a.header.size + byte_size e =
        add32_lem _ _ (omega (arith, low, small, set.most, set.upper, set.inline_limit)) in
      let (s', done, w) =
        store_array_slab_lem byte_size c storage view lawful address (leaf new) s (used o in_own) in
      (
        s',
        insert-stored a index s s' (omega (arith, same)) apart done,
        record {
          f' = f;
          below = (
            up.sound,
            ap (λ ys. insert_at ys index e) holds,
            AreSized-insert byte_size c.max_inline_array_element_size xs index e sized some_size
                small l,
            own,
          );
          stored = Writes-self byte_size c storage view lawful address (leaf new) s s' o w refl;
          own = refl;
          extra = refl;
          apart = apart;
          size = omega (arith, plus, low, small);
          grows = record {
            frame = λ j m out.
                Writes-other byte_size c storage view lawful address (leaf new) s s' o j w refl
                  (apart_of f o j in_own out);
            fresh = λ j m out. absurd (true≢false (sym m ∙ out));
            kept = λ j m. w.used j ∙ m;
            taken = λ j m. w.used j ∙ used j m;
            room = omega (arith, w.room address);
          };
        },
      )
