-- ===== src/Map/Lookup/Stores.antt =====
-- What Set does to the contents of a map, and Set of a singleElements (map_elements_nokey.go).
use atree.Prelude.{
  ℕ, suc, ◌+◌, ◌≡◌, ◌≢◌, ◌∙◌, refl, ap, sym, true, false, Option, none, some, List, [], ◌∷◌, ◌++◌,
  ◌==◌, set, arith, Bool-cases, inl, inr,
}
use mathlib.Core.Option.{map as map_option}
use atree.Bytes.{Bytes8}
use atree.Errors.{ok, wrap_result}
use atree.Settings.{Settings, max_inline_map_value_size}
use atree.Map.Slab.{SingleElement, SingleElements}
use atree.Map.Client.{Client, IsLawfulClient, Digester}
use atree.Map.Single.{
  single_of, new_single_element, overwritten, set_single, with_single, with_appended,
}
use atree.Map.Lookup.{look_singles, index_single}
use atree.Map.Lookup.Singles.{find_single-index_single, look_singles-index_single}

-- Contents `new` are contents `old` with `value` under `key`. `stored` is the stored key, and
-- `replaced` the value that was there before.
pub record Stores {E S V : Type 0} {client : Client E S V} (law : IsLawfulClient client)
    (key value : V) (old new : V → Option (E × E)) (stored : E) (replaced : Option E) : Type 0 where
  pub holds : (v : E) × (new key ≡ some (stored, v)) × (law.value_of v ≡ value)
  pub is_key : law.value_of stored ≡ key
  pub others : (key' : V) → key ≢ key' → new key' ≡ old key'
  pub before : replaced ≡ map_option (λ p. p.1) (old key)

module _ {E S V : Type 0} (client : Client E S V) (law : IsLawfulClient client) (c : Settings)
    (address : Bytes8) (value : V) where
  abbrev pub stored_value_of : E → E
  stored_value_of k =
      law.storable_of address (max_inline_map_value_size c (client.byte_size k)) value

  abbrev pub stored_key : V → E
  stored_key key = law.storable_of address c.max_inline_map_key_size key

  pub new_single_element-ok :
      (key : V) (s : S)
      → (new_single_element client c address key value s).0
        ≡ ok (single_of client.byte_size (stored_key key) (stored_value_of (stored_key key)))
  unfolding new_single_element wrap_result
  new_single_element-ok key s = rw (law.storable-ok address c.max_inline_map_key_size key s) (
      rw
        (law.storable-ok address (max_inline_map_value_size c (client.byte_size (stored_key key)))
          value _)
        refl)

  pub overwritten-ok :
      (e : SingleElement E) (s : S)
      → (overwritten client c address e value s).0
        ≡ ok (single_of client.byte_size e.key (stored_value_of e.key))
  unfolding overwritten wrap_result
  overwritten-ok e s =
      rw (law.storable-ok address (max_inline_map_value_size c (client.byte_size e.key)) value s)
        refl

  pub differs :
      (key key' : V) (e : E)
      → key ≢ key'
      → law.value_of e ≡ key
      → law.equal key' (law.value_of e) ≡ false
  differs key key' e n h = elim (Bool-cases (law.equal key' (law.value_of e))) [
    | inr other ↦ other
    | inl same ↦ absurd (n (sym h ∙ sym ((law.equal_iff _ _).0 same)))
  ]

  pub same_key : (key : V) (e : E) → law.value_of e ≡ key → law.equal key (law.value_of e) ≡ true
  same_key key e h = (law.equal_iff _ _).1 (sym h)

  -- The element that is found has the key, and another one with the same stored key takes its place.
  data Indexed (key : V) (i : ℕ) (es : List (SingleElement E)) : Type 0 where
    absent : index_single client law key i es ≡ none → Indexed key i es
    at :
        (m : ℕ) (e : SingleElement E)
        → index_single client law key i es ≡ some (i + m, e)
        → law.value_of e.key ≡ key
        → ((e' : SingleElement E)
            → e'.key ≡ e.key
            → look_singles client law key (set es m e') ≡ some (e'.key, e'.value))
        → ((e' : SingleElement E) (key' : V)
            → e'.key ≡ e.key
            → key ≢ key'
            → look_singles client law key' (set es m e') ≡ look_singles client law key' es)
        → Indexed key i es

  index_single-Indexed : (key : V) (i : ℕ) (es : List (SingleElement E)) → Indexed key i es
  unfolding index_single look_singles
  index_single-Indexed key i [] = absent refl
  index_single-Indexed key i (e ∷ es) = elim (Bool-cases (law.equal key (law.value_of e.key))) [
    | inl same ↦
        let h : law.value_of e.key ≡ key = sym ((law.equal_iff _ _).0 same) in
        let here : i ≡ i + 0 = omega arith in
        at 0 e (rw same (ap (λ j. some (j, e)) here)) h (λ e' k. rw (k, same) refl)
          (λ e' key' k n. let other = differs key key' e.key n h in rw (k, other) refl)
    | inr other ↦ later other (index_single-Indexed key (suc i) es)
  ]
    where
      later :
          law.equal key (law.value_of e.key) ≡ false
          → Indexed key (suc i) es
          → Indexed key i (e ∷ es)
      later other (absent h) = absent (rw other h)
      later other (at m f h k here there) =
          let next : suc i + m ≡ i + suc m = omega arith in
          at (suc m) f (rw other (h ∙ ap (λ j. some (j, f)) next)) k (λ e' q. rw other (here e' q))
            (λ e' key' q n. rw (there e' key' q n) refl)

  look_singles-append :
      (key : V) (i : ℕ) (es : List (SingleElement E)) (e : SingleElement E)
      → index_single client law key i es ≡ none
      → law.value_of e.key ≡ key
      → (look_singles client law key es ≡ none)
        × (look_singles client law key (es ++ e ∷ []) ≡ some (e.key, e.value))
        × ((key' : V)
            → key ≢ key'
            → look_singles client law key' (es ++ e ∷ []) ≡ look_singles client law key' es)
  unfolding index_single look_singles
  look_singles-append key i [] e h k =
      let same = same_key key e.key k in
      (refl, rw same refl, λ key' n. let other = differs key key' e.key n k in rw other refl)
  look_singles-append key i (f ∷ es) e h k =
      elim (Bool-cases (law.equal key (law.value_of f.key))) [
        | inl same ↦ absurd (let h' = rw same at h in cc)
        | inr other ↦
            let (a, b, d) = look_singles-append key (suc i) es e (rw other at h) k in
            (rw other a, rw other b, λ key' n. rw (d key' n) refl)
      ]

  -- Set at the last level.
  pub set_single-Stores :
      (d : Digester) (level : ℕ) (key : V) (g : SingleElements E)
      → (level == d.levels) ≡ true
      → (r : SingleElements E × E × Option E) × ((s : S)
          → (set_single client c address d level key value g s).0 ≡ ok r)
        × Stores law key value
            (λ q. look_singles client law q g.elems)
            (λ q. look_singles client law q r.0.elems)
            r.1
            r.2
  unfolding set_single with_single with_appended single_of
  set_single-Stores d level key g last = go (index_single-Indexed key 0 g.elems)
    where
      go :
          Indexed key 0 g.elems
          → (r : SingleElements E × E × Option E) × ((s : S)
              → (set_single client c address d level key value g s).0 ≡ ok r)
            × Stores law key value
                (λ q. look_singles client law q g.elems)
                (λ q. look_singles client law q r.0.elems)
                r.1
                r.2
      go (absent h) =
          let ks = stored_key key in
          let is_key = law.value_of-storable_of address c.max_inline_map_key_size key in
          let e = single_of client.byte_size ks (stored_value_of ks) in
          let (missing, found, others) = look_singles-append key 0 g.elems e h is_key in
          (
            (with_appended g e, ks, none),
            λ s.
                rw (last, find_single-index_single client law key 0 g.elems s, h)
                  (rw (new_single_element-ok key _) refl),
            record {
              holds = (stored_value_of ks, found, law.value_of-storable_of _ _ value);
              is_key = is_key;
              others = others;
              before = rw missing refl;
            },
          )
      go (at m e h k here there) =
          let e' = single_of client.byte_size e.key (stored_value_of e.key) in
          let looked = look_singles-index_single client law key 0 g.elems in
          let zero_add : 0 + m ≡ m = omega arith in
          (
            (with_single g m e', e.key, some e.value),
            λ s.
                rw (last, find_single-index_single client law key 0 g.elems s, h, zero_add)
                  (rw (overwritten-ok e _) refl),
            record {
              holds = (stored_value_of e.key, here e' refl, law.value_of-storable_of _ _ value);
              is_key = k;
              others = λ key' n. there e' key' refl n;
              before = rw (looked, h) refl;
            },
          )
